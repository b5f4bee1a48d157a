-- ===== src/RedisClient/Plane.antt =====
-- What the control plane promises: entries with their times to live, and locks with theirs, each
-- under a prefix hash. The operations on Redis are operations on this.
pub mod Refinement
pub mod Leases
mod Tests
use mathlib.Core.Option
use ghostcacher.Prelude.{
  ℕ, zero, suc, ◌≡◌, refl, sym, ap, ap₂, ◌∙◌, fun_ext, subst, Bool, true, false, Option, none, some,
  List, [], ◌∷◌, inl, inr, Bool-cases, Option-cases, arith, if◌then◌else◌,
}
use ghostcacher.Prelude.Int.{ℤ, pos, negsuc, as_i64}
use ghostcacher.Text.{Text, text_eq}
use ghostcacher.Types.{TtlPolicy, infinite, fixed, sliding, CacheEntry, redis_ttl_secs}
use ghostcacher.Exec.{Exec, ok, ◌>>=◌, ◌>>◌, pure, bind-cases, pure-cases}
use ghostcacher.Serde.{Serde}
use ghostcacher.World.{World, Db, put, remove, expire_in, is_some}
use ghostcacher.RedisClient.{
  cache_key, lock_key, touch, lookup, write, try_acquire_ghost_lock, release_ghost_lock,
}
use ghostcacher.RedisClient.Lookup.{refreshed, Hit, Looked, missed, found, lookup-Looked, write_ok}
use ghostcacher.RedisClient.Lock.{acquired, try_acquire_ok, release_ok}

pub record Plane : Type 0 where
  pub entry : Text → Option CacheEntry
  pub ttl : Text → Option ℕ
  pub locked : Text → Bool
  -- The seconds until the server drops the lock.
  pub lease : Text → Option ℕ

-- A function changed at one hash.
abbrev pub update : {A : Type 0} → Text → A → (Text → A) → Text → A
update h a f j = if text_eq h j then a else f j

pub data Call : Type 0 where
  to_write : CacheEntry → Call
  to_look_up : Text → Call
  to_acquire : Text → Call
  to_release : Text → Call

pub data Reply : Type 0 where
  done : Reply
  looked_up : Option CacheEntry → Reply
  took : Bool → Reply

abbrev pub hit_plane : ℕ → Text → Plane → Option CacheEntry → Reply × Plane
hit_plane now h p none = (looked_up none, p)
hit_plane now h p (some e) = (
  looked_up (some (touch now e)),
  record p { entry = update h (some (touch now e)) p.entry; ttl = update h none p.ttl },
)

-- What a call at a time does.
abbrev pub promised : ℕ → Call → Plane → Reply × Plane
promised now (to_write e) p = (
  done,
  record p {
    entry = update e.prefix_hash (some e) p.entry;
    ttl = update e.prefix_hash (redis_ttl_secs e.ttl_policy) p.ttl;
  },
)
promised now (to_look_up h) p = hit_plane now h p (p.entry h)
promised now (to_acquire h) p = if p.locked h then (took false, p) else (
  took true,
  record p { locked = update h true p.locked; lease = update h (some 30) p.lease },
)
promised now (to_release h) p =
    (done, record p { locked = update h false p.locked; lease = update h none p.lease })

-- Calls one after the other, at their times.
abbrev pub promised_all : List ℕ → List Call → Plane → List Reply × Plane
promised_all (now ∷ nows) (c ∷ cs) p =
    let (r, q) = promised now c p in let (rs, last) = promised_all nows cs q in (r ∷ rs, last)
promised_all _ _ p = ([], p)

module _ (w : World) (serde : Serde) where
  open w use {Store, view}

  -- The promise as the database keeps it.
  abbrev pub plane : Db → Plane
  plane db = record {
    entry = λ h. Option.bind (db.value (cache_key h)) serde.from_str;
    ttl = λ h. db.ttl (cache_key h);
    locked = λ h. is_some (db.value (lock_key h));
    lease = λ h. db.ttl (lock_key h);
  }

  -- A call as the code carries it out.
  abbrev pub perform : Call → Exec Store Reply
  perform (to_write e) = do write w serde e; pure done
  perform (to_look_up h) = do r ← lookup w serde h; pure (looked_up r)
  perform (to_acquire h) = do b ← try_acquire_ghost_lock w serde h; pure (took b)
  perform (to_release h) = do release_ghost_lock w serde h; pure done

  abbrev pub perform_all : List Call → Exec Store (List Reply)
  perform_all [] = pure []
  perform_all (c ∷ cs) = do r ← perform c; rs ← perform_all cs; pure (r ∷ rs)
