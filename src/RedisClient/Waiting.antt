-- ===== src/RedisClient/Waiting.antt =====
-- How long `await_ghost_lock_release` waits.
use ghostcacher.Prelude.{
  ℕ, zero, suc, ◌+◌, ◌-◌, ◌≤◌, ◌≡◌, ◌∙◌, Bool, true, false, Option, none, some, arith,
}
use ghostcacher.Text.{Text}
use ghostcacher.Types.{CacheEntry}
use ghostcacher.Exec.{Exec, Result, ok, err, panic, ◌>>=◌, continue}
use ghostcacher.Exec.Frame.{Keeps, IsFrame, bind-Keeps}
use ghostcacher.Serde.{Serde}
use ghostcacher.World.{World}
use ghostcacher.World.Clocked.{Still, Still-IsFrame, Clocked}
use ghostcacher.RedisClient.Kept.{LookupKeeps, lookup-Keeps}
use ghostcacher.RedisClient.{
  cache_key, lock_key, backoff_ms, ghost_lock_retry_max, await_unlocked, await_round, or_go_on,
  await_loop, await_ghost_lock_release,
}

module _ (w : World) (serde : Serde) (clocked : Clocked w) (h : Text) where
  open clocked use {slept_ms}

  frame : IsFrame (Still slept_ms)
  frame = Still-IsFrame slept_ms

  Still-LookupKeeps : LookupKeeps w (Still slept_ms)
  Still-LookupKeeps = record {
    frame = frame;
    conn_kept = clocked.conn_clocked;
    get_kept = clocked.get_clocked;
    set_kept = λ k v. clocked.set_clocked (cache_key k) v;
    expire_kept = λ k n. clocked.expire_clocked (cache_key k) n;
  }

  await_unlocked-Keeps : (locked : Bool) → Keeps (Still slept_ms) (await_unlocked w serde h locked)
  unfolding await_unlocked
  await_unlocked-Keeps true = λ s. frame.stays s
  await_unlocked-Keeps false =
      bind-Keeps _ frame _ _ (lookup-Keeps w serde (Still slept_ms) Still-LookupKeeps h)
        λ found s. frame.stays s

  -- What comes behind the sleep of a round.
  abbrev polled : Exec w.Store (Option (Option CacheEntry))
  polled = w.conn >>= λ u. w.exists (lock_key h) >>= λ locked. await_unlocked w serde h locked

  polled-Keeps : Keeps (Still slept_ms) polled
  polled-Keeps =
      bind-Keeps _ frame _ _ clocked.conn_clocked
        λ u. bind-Keeps _ frame _ _ (clocked.exists_clocked (lock_key h)) await_unlocked-Keeps

  -- A round sleeps its backoff, however it ends.
  pub await_round-slept :
      (n : ℕ) (s : w.Store) → slept_ms (await_round w serde h n s).1 ≡ slept_ms s + backoff_ms n
  unfolding await_round ◌>>=◌
  await_round-slept n s =
      polled-Keeps (w.sleep (backoff_ms n) s) ∙ clocked.sleep_clocked (backoff_ms n) s

  -- The time of a first part that takes `a`, and of what goes on behind it in `b` at most.
  continue-slept :
      {A B : Type 0} (f : A → Exec w.Store B) (r : Result A × w.Store) (start a b : ℕ)
      → slept_ms r.1 ≡ start + a
      → ((x : A) (t : w.Store) → slept_ms (f x t).1 ≤ slept_ms t + b)
      → slept_ms (continue f r).1 ≤ start + (a + b)
  continue-slept f (ok x, t) start a b e k = omega (arith, e, k x t)
  continue-slept f (err r, t) start a b e k = omega (arith, e)
  continue-slept f (panic, t) start a b e k = omega (arith, e)

  or_go_on-slept :
      (rest : Exec w.Store (Option CacheEntry)) (b : ℕ)
      → ((t : w.Store) → slept_ms (rest t).1 ≤ slept_ms t + b)
      → (r : Option (Option CacheEntry)) (t : w.Store)
      → slept_ms (or_go_on w serde rest r t).1 ≤ slept_ms t + b
  or_go_on-slept rest b k none t = k t
  or_go_on-slept rest b k (some found) t = omega arith

  -- The sleeps of the rounds that are left.
  abbrev budget : ℕ → ℕ
  budget zero = 0
  budget (suc left) = backoff_ms (ghost_lock_retry_max - suc left) + budget left

  await_loop-slept :
      (left : ℕ) (s : w.Store) → slept_ms (await_loop w serde left h s).1 ≤ slept_ms s + budget left
  unfolding await_loop ◌>>=◌
  await_loop-slept zero s = omega arith
  await_loop-slept (suc left) s =
      continue-slept (or_go_on w serde (await_loop w serde left h))
        (await_round w serde h (ghost_lock_retry_max - suc left) s) (slept_ms s)
        (backoff_ms (ghost_lock_retry_max - suc left)) (budget left)
        (await_round-slept (ghost_lock_retry_max - suc left) s)
        (or_go_on-slept (await_loop w serde left h) (budget left) (await_loop-slept left))

  -- However it ends, the wait for the lock sleeps no longer than 9.55 seconds in all.
  pub await_ghost_lock_release-slept :
      (s : w.Store) → slept_ms (await_ghost_lock_release w serde h s).1 ≤ slept_ms s + 9550
  unfolding await_ghost_lock_release backoff_ms
  await_ghost_lock_release-slept s = await_loop-slept ghost_lock_retry_max s
