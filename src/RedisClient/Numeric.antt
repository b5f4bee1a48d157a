-- ===== src/RedisClient/Numeric.antt =====
-- The loads in Redis are numbers: what the operations of a sidecar do about that, and that the list
-- of the loads does not panic then.
pub mod Listing
use mathlib.Core.Option.{get_or}
use ghostcacher.Prelude.{
  ℕ, zero, suc, ◌-◌, ◌≡◌, refl, sym, ap, subst, ◌∙◌, Bool, true, false, Option, none, some, List,
  [], ◌∷◌, ◌++◌, All, arith, ◌==◌, ==_iff, inl, inr, Bool-cases,
}
use ghostcacher.Prelude.Sort.{sort}
use ghostcacher.Prelude.Int.{ℤ, as_i64}
use ghostcacher.Text.{Text, lit, text_eq, starts_with}
use ghostcacher.F32.{F32, f32_le, is_nan, half}
use ghostcacher.Types.{CacheEntry, redis_ttl_secs}
use ghostcacher.Exec.{
  Exec, ok, ◌>>=◌, attempted, continue, Result, err, panic, or_panic, redis_error, serde_error,
  bind-cases, pure-cases, lift-cases,
}
use ghostcacher.Exec.Frame.{Keeps, IsFrame, bind-Keeps, lift-Keeps, attempt-Keeps, or_panic-Keeps}
use ghostcacher.Exec.Outcome.{is_panic, NeverPanics, is_ok-panic, or_panic-Succeeds}
use ghostcacher.Serde.{Serde}
use ghostcacher.World.{World}
use ghostcacher.World.Confined.{Same, Confined, CommandsConfined}
use ghostcacher.RedisClient.Kept.{LookupKeeps, lookup-Keeps}
use ghostcacher.RedisClient.Panics.{Calm, loads_of-NeverPanics, read_load-NeverPanics}
use ghostcacher.RedisClient.{
  cache_key, lock_key, lookup, try_acquire_ghost_lock, release_ghost_lock, write, write_json,
  await_unlocked, await_round, await_loop, or_go_on, await_ghost_lock_release, ghost_lock_retry_max,
  backoff_ms, any_nan, sort_loads, parse_load, read_load, load_or_half, loads_of, list_pod_loads,
  incr_metric,
}

abbrev pub IsLoadKey : Text → Type 0
IsLoadKey k = starts_with (lit "pod_load:") k ≡ true

-- A key with another first letter than that of the loads is none of them.
other_key : (c : ℕ) (k j : Text) → (c == 112) ≡ false → IsLoadKey j → text_eq (c ∷ k) j ≡ false
unfolding starts_with text_eq
other_key c k [] apart e = refl
other_key c k (d ∷ j) apart e = ground (arith, e, apart)

module _ (w : World) (serde : Serde) where
  open w use {Store, view}

  -- No load in Redis is NaN.
  abbrev pub Numeric : Store → Type 0
  Numeric s =
      (key v : Text) (x : F32)
      → IsLoadKey key
      → (view s).value key ≡ some v
      → serde.parse_f32 v ≡ some x
      → is_nan x ≡ false

  -- What is relied on: commands leave alone the keys that they do not name, `KEYS` gives keys that
  -- fit its pattern, and no other process stores a load that is NaN while this one sleeps.
  pub record Peaceful : Type 0 where
    pub confined : Confined w
    pub commands : CommandsConfined w
    pub keys_match :
        {found : List Text} {s t : Store}
        → w.keys (lit "pod_load:*") s ≡ (ok found, t)
        → All IsLoadKey found
    pub sleep_numeric : (ms : ℕ) (s : Store) → Numeric s → Numeric (w.sleep ms s)

  -- Numbers stay numbers.
  abbrev pub StaysNumeric : Store → Store → Type 0
  StaysNumeric s t = Numeric s → Numeric t

  pub StaysNumeric-IsFrame : IsFrame StaysNumeric
  StaysNumeric-IsFrame = record { stays = λ s n. n; goes_on = λ first second n. second (first n) }

  pub Same-StaysNumeric :
      (s t : Store) → ((j : Text) → IsLoadKey j → Same w j s t) → StaysNumeric s t
  Same-StaysNumeric s t same n key v x is_load has parsed =
      n key v x is_load (sym (same key is_load).0 ∙ has) parsed

  module _ (peaceful : Peaceful) where
    open peaceful use {confined, commands}

    frame : IsFrame StaysNumeric
    frame = StaysNumeric-IsFrame

    pub conn-Keeps : Keeps StaysNumeric w.conn
    conn-Keeps s = Same-StaysNumeric s _ (λ j l. confined.conn_confined j s)

    pub get-Keeps : (k : Text) → Keeps StaysNumeric (w.get k)
    get-Keeps k s = Same-StaysNumeric s _ (λ j l. confined.get_confined k j s)

    set-Keeps : (h v : Text) → Keeps StaysNumeric (w.set (cache_key h) v)
    unfolding cache_key
    set-Keeps h v s =
        Same-StaysNumeric s _ (λ j l. commands.set_confined _ v j (other_key 99 _ j refl l) s)

    set_ex-Keeps : (h v : Text) (n : ℕ) → Keeps StaysNumeric (w.set_ex (cache_key h) v n)
    unfolding cache_key
    set_ex-Keeps h v n s =
        Same-StaysNumeric s _ (λ j l. confined.set_ex_confined _ v n j (other_key 99 _ j refl l) s)

    expire-Keeps : (h : Text) (n : ℤ) → Keeps StaysNumeric (w.expire (cache_key h) n)
    unfolding cache_key
    expire-Keeps h n s =
        Same-StaysNumeric s _ (λ j l. commands.expire_confined _ n j (other_key 99 _ j refl l) s)

    pub lookup-StaysNumeric : (h : Text) → Keeps StaysNumeric (lookup w serde h)
    lookup-StaysNumeric = lookup-Keeps w serde StaysNumeric (record {
      frame = frame;
      conn_kept = conn-Keeps;
      get_kept = get-Keeps;
      set_kept = set-Keeps;
      expire_kept = expire-Keeps;
    })

    pub try_acquire-StaysNumeric :
        (h : Text) → Keeps StaysNumeric (try_acquire_ghost_lock w serde h)
    unfolding try_acquire_ghost_lock lock_key
    try_acquire-StaysNumeric h = bind-Keeps _ frame _ _ conn-Keeps λ u.
        bind-Keeps _ frame _ _
          (λ s.
            Same-StaysNumeric s _
              (λ j l. commands.set_nx_ex_confined _ _ _ j (other_key 103 _ j refl l) s))
          λ r s. frame.stays s

    pub release-StaysNumeric : (h : Text) → Keeps StaysNumeric (release_ghost_lock w serde h)
    unfolding release_ghost_lock lock_key
    release-StaysNumeric h =
        bind-Keeps _ frame _ _ conn-Keeps λ u s.
          Same-StaysNumeric s _ (λ j l. confined.del_confined _ j (other_key 103 _ j refl l) s)

    pub incr_metric-StaysNumeric : (key : Text) → Keeps StaysNumeric (incr_metric w serde key)
    unfolding incr_metric
    incr_metric-StaysNumeric key = bind-Keeps _ frame _ _ conn-Keeps λ u s.
        Same-StaysNumeric s _ (λ j l. confined.incr_confined _ 1 j (other_key 103 _ j refl l) s)

    write_json-StaysNumeric :
        (h json : Text) (ttl : Option ℕ)
        → Keeps StaysNumeric (write_json w serde (cache_key h) json ttl)
    unfolding write_json
    write_json-StaysNumeric h json none = set-Keeps h json
    write_json-StaysNumeric h json (some n) = set_ex-Keeps h json n

    pub write-StaysNumeric : (entry : CacheEntry) → Keeps StaysNumeric (write w serde entry)
    unfolding write
    write-StaysNumeric entry = bind-Keeps _ frame _ _ conn-Keeps λ u.
        bind-Keeps _ frame _ _ (lift-Keeps _ frame serde_error (serde.to_string entry))
          λ json. write_json-StaysNumeric entry.prefix_hash json (redis_ttl_secs entry.ttl_policy)

    await_unlocked-StaysNumeric :
        (h : Text) (locked : Bool) → Keeps StaysNumeric (await_unlocked w serde h locked)
    unfolding await_unlocked
    await_unlocked-StaysNumeric h true = λ s. frame.stays s
    await_unlocked-StaysNumeric h false =
        bind-Keeps _ frame _ _ (lookup-StaysNumeric h) λ found s. frame.stays s

    await_round-StaysNumeric : (h : Text) (n : ℕ) → Keeps StaysNumeric (await_round w serde h n)
    unfolding await_round
    await_round-StaysNumeric h n =
        bind-Keeps _ frame _ _ (λ s. peaceful.sleep_numeric (backoff_ms n) s)
          λ u. bind-Keeps _ frame _ _ conn-Keeps λ v.
            bind-Keeps _ frame _ _
              (λ s. Same-StaysNumeric s _ (λ j l. commands.exists_confined (lock_key h) j s))
              (await_unlocked-StaysNumeric h)

    or_go_on-StaysNumeric :
        (rest : Exec Store (Option CacheEntry)) (r : Option (Option CacheEntry))
        → Keeps StaysNumeric rest
        → Keeps StaysNumeric (or_go_on w serde rest r)
    or_go_on-StaysNumeric rest none k = k
    or_go_on-StaysNumeric rest (some found) k = λ s. frame.stays s

    await_loop-StaysNumeric : (n : ℕ) (h : Text) → Keeps StaysNumeric (await_loop w serde n h)
    unfolding await_loop
    await_loop-StaysNumeric zero h = λ s. frame.stays s
    await_loop-StaysNumeric (suc n) h =
        bind-Keeps _ frame _ _ (await_round-StaysNumeric h (ghost_lock_retry_max - suc n))
          λ r. or_go_on-StaysNumeric (await_loop w serde n h) r (await_loop-StaysNumeric n h)

    pub await-StaysNumeric : (h : Text) → Keeps StaysNumeric (await_ghost_lock_release w serde h)
    unfolding await_ghost_lock_release
    await-StaysNumeric h = await_loop-StaysNumeric ghost_lock_retry_max h
