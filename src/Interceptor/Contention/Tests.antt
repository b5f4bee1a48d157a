-- ===== src/Interceptor/Contention/Tests.antt =====
-- Instances of the theorems on requests in contention: three threads at a server in memory.
use ghostcacher.Prelude.{arith, ℕ, ◌≢◌, ◌≡◌, refl, Bool, true, false}
use ghostcacher.Text.{Text, lit}
use ghostcacher.World.{elapse}
use ghostcacher.World.Memory.{Memory, memory, empty}
use ghostcacher.Serde.Sample.{plain}
use ghostcacher.RedisClient.Plane.{to_acquire, to_release, plane, perform}
use ghostcacher.Interceptor.Contention.{
  asking, owning, waiting, Scene, Step, Reach, start, next, ask, give_up, move,
}
use ghostcacher.Interceptor.Contention.Exclusion.{mutual_exclusion, stray_release, lapsed_lock}

abbrev key : Text
key = lit "ab"

abbrev idle : Scene memory plain key
idle = record { store = empty 1000; phase = λ i. asking }

abbrev locked : Memory
locked = (perform memory plain (to_acquire key) (empty 1000)).1

abbrev refused : Memory
refused = (perform memory plain (to_acquire key) locked).1

-- Thread 0 has the lock and thread 1 is refused it.
contended :
    (strays lapses : Bool)
    → Reach memory plain key strays lapses
        (record { store = refused; phase = move 1 waiting (move 0 owning (λ i. asking)) })
unfolding ghostcacher.Exec.◌>>=◌ ghostcacher.RedisClient.try_acquire_ghost_lock
    ghostcacher.World.claim ghostcacher.Text.text_eq ghostcacher.RedisClient.lock_key
contended strays lapses =
    next (next (start idle (λ i. refl)) (ask 0 true {t = locked} refl refl))
      (ask 1 false {t = refused} refl refl)

mutual_exclusion_example : (◌≡◌ {A = ℕ} 0 0) × ((plane memory plain refused.db).locked key ≡ true)
mutual_exclusion_example = mutual_exclusion memory plain key 0 0 (contended false false) refl refl

abbrev released : Memory
released = (perform memory plain (to_release key) refused).1

abbrev taken : Memory
taken = (perform memory plain (to_acquire key) released).1

stray_release_example :
    (true ≡ true)
    × (last : Scene memory plain key) × Reach memory plain key true false last
    × (last.phase 0 ≡ owning)
    × (last.phase 2 ≡ owning)
    × (◌≢◌ {A = ℕ} 0 2)
unfolding ghostcacher.Exec.◌>>=◌ ghostcacher.RedisClient.release_ghost_lock
    ghostcacher.RedisClient.try_acquire_ghost_lock ghostcacher.World.claim ghostcacher.World.remove
    ghostcacher.Text.text_eq ghostcacher.RedisClient.lock_key
stray_release_example =
    stray_release memory plain key 0 1 2 {t = released} {u = taken}
      (next (contended true false) (give_up 1 refl)) refl refl refl refl refl

-- The server 30 seconds after the first acquisition, after the second, and after the release by the
-- first.
abbrev waited : Memory
waited = record locked { db = elapse 30 locked.db }

abbrev retaken : Memory
retaken = (perform memory plain (to_acquire key) waited).1

abbrev robbed : Memory
robbed = (perform memory plain (to_release key) retaken).1

apart : ◌≢◌ {A = ℕ} 0 2
apart e = cc

lapsed_lock_example :
    (true ≡ true)
    × (both last : Scene memory plain key) × Reach memory plain key false true both
    × (both.phase 0 ≡ owning)
    × (both.phase 2 ≡ owning)
    × Step memory plain key false true both last
    × (last.phase 2 ≡ owning)
    × ((plane memory plain last.store.db).locked key ≡ false)
unfolding ghostcacher.Exec.◌>>=◌ ghostcacher.RedisClient.try_acquire_ghost_lock
    ghostcacher.World.claim elapse ghostcacher.Text.text_eq ghostcacher.RedisClient.lock_key
    ghostcacher.RedisClient.release_ghost_lock
lapsed_lock_example =
    lapsed_lock memory plain key 30 0 2 {a = locked} {t = waited} {u = retaken} {v = robbed}
      (omega arith) (start idle (λ i. refl)) apart refl refl refl refl refl refl
