-- ===== src/Interceptor/Contention.antt =====
-- sidecar/src/interceptor.rs: requests of several sidecars for one prefix that is not in the map,
-- interleaved in any order. Each is a thread that the step relation moves by the operations on
-- Redis, from the call of try_acquire_ghost_lock in `intercept_handler` to the end of the task that
-- it spawns. A command that fails leaves the store as it is.
pub mod Exclusion
mod Tests
use ghostcacher.Prelude.{ℕ, ◌≡◌, Bool, true, false, if◌then◌else◌, Option, none, some, ◌==◌}
use ghostcacher.Text.{Text}
use ghostcacher.Types.{CacheEntry}
use ghostcacher.Exec.{ok}
use ghostcacher.Serde.{Serde}
use ghostcacher.World.{World, elapse}
use ghostcacher.RedisClient.Plane.{
  to_write, to_look_up, to_acquire, to_release, done, looked_up, took, plane, perform,
}

-- Before the lock is asked for; with the lock; waiting for it; a miss without the lock, whose task
-- is to write and release all the same; at the end.
pub data Phase : Type 0 where
  asking owning waiting unowned through : Phase

abbrev pub move : ℕ → Phase → (ℕ → Phase) → ℕ → Phase
move i p phase j = if i == j then p else phase j

-- What a lookup after the wait makes of the request.
abbrev pub after_wait : Option CacheEntry → Phase
after_wait none = unowned
after_wait (some e) = through

module _ (w : World) (serde : Serde) (h : Text) where
  open w use {Store, view}

  pub record Scene : Type 0 where
    pub store : Store
    pub phase : ℕ → Phase

  -- With `strays` the tasks of misses without the lock release it, as in the code; with `lapses` the
  -- server drops keys whose time to live is over, the lock after its 30 seconds.
  pub data Step (strays lapses : Bool) (s : Scene) : Scene → Type 0 where
    ask :
        (i : ℕ) (b : Bool) {t : Store}
        → s.phase i ≡ asking
        → perform w serde (to_acquire h) s.store ≡ (ok (took b), t)
        → Step strays lapses s
            (record { store = t; phase = move i (if b then owning else waiting) s.phase })
    -- The request for the lock failed: `unwrap_or(false)`.
    fail :
        (i : ℕ)
        → s.phase i ≡ asking
        → Step strays lapses s (record s { phase = move i waiting s.phase })
    -- The lookup before it failed, and the request is a miss at once.
    fall_back :
        (i : ℕ)
        → s.phase i ≡ asking
        → Step strays lapses s (record s { phase = move i unowned s.phase })
    -- A round of the wait found the lock free; it may be held again when the lookup comes.
    look :
        (i : ℕ) {r : Option CacheEntry} {t : Store}
        → s.phase i ≡ waiting
        → perform w serde (to_look_up h) s.store ≡ (ok (looked_up r), t)
        → Step strays lapses s (record { store = t; phase = move i (after_wait r) s.phase })
    -- The rounds are used up, or Redis failed.
    give_up :
        (i : ℕ)
        → s.phase i ≡ waiting
        → Step strays lapses s (record s { phase = move i unowned s.phase })
    -- The write of a task, for any entry.
    warm :
        (i : ℕ) (e : CacheEntry) {t : Store}
        → perform w serde (to_write e) s.store ≡ (ok done, t)
        → Step strays lapses s (record s { store = t })
    -- The release by the task of the owner.
    free :
        (i : ℕ) {t : Store}
        → s.phase i ≡ owning
        → perform w serde (to_release h) s.store ≡ (ok done, t)
        → Step strays lapses s (record { store = t; phase = move i through s.phase })
    -- The release failed, and the error is dropped.
    linger :
        (i : ℕ)
        → s.phase i ≡ owning
        → Step strays lapses s (record s { phase = move i through s.phase })
    -- The release by the task of a miss that does not have the lock.
    stray :
        (i : ℕ) {t : Store}
        → strays ≡ true
        → s.phase i ≡ unowned
        → perform w serde (to_release h) s.store ≡ (ok done, t)
        → Step strays lapses s (record { store = t; phase = move i through s.phase })
    -- Time, and what other requests do to other keys.
    other :
        (t : Store)
        → (plane w serde (view t)).locked h ≡ (plane w serde (view s.store)).locked h
        → Step strays lapses s (record s { store = t })
    lapse :
        (n : ℕ) {t : Store}
        → lapses ≡ true
        → view t ≡ elapse n (view s.store)
        → Step strays lapses s (record s { store = t })

  -- The scenes that follow from one in which no request has the lock.
  pub data Reach (strays lapses : Bool) : Scene → Type 0 where
    start : (s : Scene) → ((i : ℕ) → s.phase i ≡ asking) → Reach strays lapses s
    next : {s t : Scene} → Reach strays lapses s → Step strays lapses s t → Reach strays lapses t
