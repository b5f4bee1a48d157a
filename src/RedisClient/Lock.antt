-- ===== src/RedisClient/Lock.antt =====
-- The Ghost-Lock.
use mathlib.Core.Path.{subst₂}
use ghostcacher.Prelude.{
  ℕ, zero, suc, ◌+◌, ◌-◌, ap, ◌∙◌, ◌≡◌, refl, sym, Bool, true, false, Option, none, some, inl, inr,
  Option-cases, if◌then◌else◌, arith,
}
use ghostcacher.Text.{Text, lit}
use ghostcacher.Types.{CacheEntry}
use ghostcacher.World.Clocked.{Clocked}
use ghostcacher.RedisClient.Waiting.{await_round-slept}
use ghostcacher.Exec.{Exec, Result, ok, ◌>>=◌, bind-cases, pure-cases}
use ghostcacher.Serde.{Serde}
use ghostcacher.World.{World, Db, put, remove, claim, is_some}
use ghostcacher.RedisClient.{
  lock_key, backoff_ms, ghost_lock_retry_max, lookup, try_acquire_ghost_lock, release_ghost_lock,
  await_unlocked, await_round, await_loop, await_ghost_lock_release, or_go_on,
}
use ghostcacher.RedisClient.Inversion.{value-put, value-remove}

module _ (w : World) (serde : Serde) (h : Text) where
  open w use {Store, view}

  -- The lock as the server has it.
  abbrev pub held : Store → Bool
  held s = is_some ((view s).value (lock_key h))

  -- The reply of `try_acquire_ghost_lock` and the database after it.
  abbrev pub acquired : Db → Bool × Db
  acquired db =
      if is_some (db.value (lock_key h))
      then (false, db)
      else (true, put (lock_key h) (lit "1") (some 30) db)

  claim-acquired :
      (db : Db)
      → (is_some (claim (lock_key h) (lit "1") 30 db).0, (claim (lock_key h) (lit "1") 30 db).1)
        ≡ acquired db
  unfolding claim
  claim-acquired db = elim (Option-cases (db.value (lock_key h))) [
    | inl e ↦ rw (e, claim) refl
    | inr (v, e) ↦ rw (e, claim) refl
  ]

  -- The lock is acquired exactly when nobody holds it: then it is set to expire after 30 seconds,
  -- and no other key changes; a call that does not acquire it changes nothing.
  pub try_acquire_ok :
      (s : Store) {b : Bool} {t : Store}
      → try_acquire_ghost_lock w serde h s ≡ (ok b, t)
      → (b, view t) ≡ acquired (view s)
  unfolding try_acquire_ghost_lock
  try_acquire_ok s e = bind-cases _ _ _ e λ u s1 e1 h1. bind-cases _ _ _ h1 λ r s2 e2 h2.
      pure-cases h2 λ returned at2.
        cc (w.conn_ok e1, w.set_nx_ex_ok (lock_key h) (lit "1") 30 e2, claim-acquired (view s1))

  acquired-held : (db : Db) → is_some ((acquired db).1.value (lock_key h)) ≡ true
  acquired-held db = ground (arith, value-put (lock_key h) (lit "1") (some 30) db)

  -- Of two calls that succeed with nothing between them the second does not acquire the lock,
  -- whoever makes them, and changes nothing.
  pub acquire-acquire :
      (s : Store) {b c : Bool} {t u : Store}
      → try_acquire_ghost_lock w serde h s ≡ (ok b, t)
      → try_acquire_ghost_lock w serde h t ≡ (ok c, u)
      → (c ≡ false) × (view u ≡ view t)
  acquire-acquire s {t = t} e f =
      ground (arith, try_acquire_ok s e, try_acquire_ok t f, acquired-held (view s))

  pub release_ok :
      (s : Store) {t : Store}
      → release_ghost_lock w serde h s ≡ (ok tt, t)
      → view t ≡ remove (lock_key h) (view s)
  unfolding release_ghost_lock
  release_ok s e = bind-cases _ _ _ e λ u s1 e1 h1. cc (w.conn_ok e1, w.del_ok (lock_key h) h1)

  -- A release that succeeds frees the lock whoever holds it: the next call that succeeds acquires
  -- the lock.
  pub acquire-release :
      (s : Store) {c : Bool} {t u : Store}
      → release_ghost_lock w serde h s ≡ (ok tt, t)
      → try_acquire_ghost_lock w serde h t ≡ (ok c, u)
      → c ≡ true
  acquire-release s {t = t} e f =
      ground (arith, release_ok s e, try_acquire_ok t f, value-remove (lock_key h) (view s))

  -- One round found the lock free, and looked the entry up.
  pub record Freed (r : Option CacheEntry) (t : Store) : Type 0 where
    pub at : Store
    pub free : held at ≡ false
    pub looked : lookup w serde h at ≡ (ok r, t)

  abbrev RoundOk : Option (Option CacheEntry) → Store → Type 0
  RoundOk none t = held t ≡ true
  RoundOk (some r) t = Freed r t

  await_unlocked_ok :
      (locked : Bool) (s : Store) {r : Option (Option CacheEntry)} {t : Store}
      → locked ≡ held s
      → await_unlocked w serde h locked s ≡ (ok r, t)
      → RoundOk r t
  unfolding await_unlocked
  await_unlocked_ok true s l e =
      pure-cases e λ returned at. subst₂ RoundOk (sym returned) (sym at) (sym l)
  await_unlocked_ok false s l e = bind-cases _ _ _ e λ found s1 e1 h1. pure-cases h1 λ returned at.
      subst₂ RoundOk (sym returned) (sym at) (record { at = s; free = sym l; looked = e1 })

  await_round_ok :
      (n : ℕ) (s : Store) {r : Option (Option CacheEntry)} {t : Store}
      → await_round w serde h n s ≡ (ok r, t)
      → RoundOk r t
  unfolding await_round
  await_round_ok n s e = bind-cases _ _ _ e λ u s1 e1 h1. bind-cases _ _ _ h1 λ v s2 e2 h2.
      bind-cases _ _ _ h2 λ locked s3 e3 h3.
        await_unlocked_ok locked s3
          (cc ((w.exists_ok (lock_key h) e3).0, (w.exists_ok (lock_key h) e3).1)) h3

  go_on_ok :
      (rest : Exec Store (Option CacheEntry)) (r : Option (Option CacheEntry)) (s : Store)
      {e : CacheEntry} {t : Store}
      → ((u : Store) → rest u ≡ (ok (some e), t) → Freed (some e) t)
      → RoundOk r s
      → or_go_on w serde rest r s ≡ (ok (some e), t)
      → Freed (some e) t
  go_on_ok rest none s ih o e = ih s e
  go_on_ok rest (some r) s ih o e =
      pure-cases e λ returned at. subst₂ Freed (sym returned) (sym at) o

  await_loop_ok :
      (n : ℕ) (s : Store) {e : CacheEntry} {t : Store}
      → await_loop w serde n h s ≡ (ok (some e), t)
      → Freed (some e) t
  unfolding await_loop
  await_loop_ok zero s e = pure-cases e λ returned at. cc
  await_loop_ok (suc n) s e = bind-cases _ _ _ e λ r s1 e1 h1.
      go_on_ok (await_loop w serde n h) r s1 (λ v. await_loop_ok n v)
        (await_round_ok (ghost_lock_retry_max - suc n) s e1) h1

  -- An entry that the wait for the lock returns was looked up when the lock was free.
  pub await_ghost_lock_release_ok :
      (s : Store) {e : CacheEntry} {t : Store}
      → await_ghost_lock_release w serde h s ≡ (ok (some e), t)
      → Freed (some e) t
  unfolding await_ghost_lock_release
  await_ghost_lock_release_ok s e = await_loop_ok ghost_lock_retry_max s e

  -- The server answers, says that the lock is held, and is in one of some states behind that.
  abbrev pub Answers : (Store → Type 0) → Store → Type 0
  Answers Locked s =
      (u : Store) × (v : Store) × (w.conn s ≡ (ok tt, u))
      × (w.exists (lock_key h) u ≡ (ok true, v))
      × Locked v

  -- The sleeps of the last rounds.
  abbrev backoffs : ℕ → ℕ
  backoffs zero = 0
  backoffs (suc left) = backoff_ms (ghost_lock_retry_max - suc left) + backoffs left

  module _ (clocked : Clocked w) {Locked : Store → Type 0}
      (always : (ms : ℕ) (u : Store) → Locked u → Answers Locked (w.sleep ms u)) where
    open clocked use {slept_ms}

    await_round-held :
        (n : ℕ) (s : Store)
        → Locked s
        → (t : Store) × (await_round w serde h n s ≡ (ok none, t))
          × Locked t
          × (slept_ms t ≡ slept_ms s + backoff_ms n)
    unfolding await_round ◌>>=◌
    await_round-held n s l =
        let (u, v, e, f, m) = always (backoff_ms n) s l in
        let round : await_round w serde h n s ≡ (ok none, v) = ground (arith, e, f) in
        (
          v,
          round,
          m,
          ap (λ (r : Result (Option (Option CacheEntry)) × Store). slept_ms r.1) (sym round)
              ∙ await_round-slept w serde clocked h n s,
        )

    await_loop-held :
        (n : ℕ) (s : Store)
        → Locked s
        → (t : Store) × (await_loop w serde n h s ≡ (ok none, t))
          × Locked t
          × (slept_ms t ≡ slept_ms s + backoffs n)
    unfolding await_loop ◌>>=◌
    await_loop-held zero s l = (s, refl, l, omega arith)
    await_loop-held (suc n) s l =
        let (u, e, m, p) = await_round-held (ghost_lock_retry_max - suc n) s l in
        let (t, f, k, q) = await_loop-held n u m in
        (t, ground (arith, e, f), k, omega (arith, p, q))

    -- The server's state is one of some in which, after any sleep, the server answers, says that the
    -- lock is held, and is in one of them again. Then the wait ends, with no entry and no error, in
    -- one of these states, when it has slept 9550 milliseconds: the sum of its eight backoffs.
    pub await-held :
        (s : Store)
        → Locked s
        → (t : Store) × (await_ghost_lock_release w serde h s ≡ (ok none, t))
          × Locked t
          × (slept_ms t ≡ slept_ms s + 9550)
    unfolding await_ghost_lock_release backoff_ms
    await-held s l = await_loop-held ghost_lock_retry_max s l
