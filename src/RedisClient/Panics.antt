-- ===== src/RedisClient/Panics.antt =====
-- The operations on Redis give a value or an error, and do not panic.
use ghostcacher.Prelude.{
  ℕ, zero, suc, ◌-◌, refl, Bool, true, false, Option, none, some, List, [], ◌∷◌, ◌++◌,
}
use ghostcacher.Prelude.Int.{ℤ, as_i64}
use ghostcacher.Text.{Text, lit}
use ghostcacher.Types.{TtlPolicy, infinite, fixed, sliding, CacheEntry}
use ghostcacher.Exec.{Exec, redis_error}
use ghostcacher.Exec.Outcome.{
  NeverPanics, bind-NeverPanics, lift-NeverPanics, attempted-ok, is_ok-panic,
}
use ghostcacher.Serde.{Serde}
use ghostcacher.World.{World}
use ghostcacher.RedisClient.{
  cache_key, lock_key, refresh, lookup_found, lookup_raw, lookup, try_acquire_ghost_lock,
  await_unlocked, await_round, await_loop, or_go_on, await_ghost_lock_release, ghost_lock_retry_max,
  parse_load, read_load, load_or_half, loads_of, incr_metric,
}

-- The crate `redis` gives errors; it does not panic.
pub record Calm (w : World) : Type 0 where
  pub conn_calm : NeverPanics w.conn
  pub get_calm : (k : Text) → NeverPanics (w.get k)
  pub set_calm : (k v : Text) → NeverPanics (w.set k v)
  pub set_ex_calm : (k v : Text) (n : ℕ) → NeverPanics (w.set_ex k v n)
  pub set_nx_ex_calm : (k v : Text) (n : ℕ) → NeverPanics (w.set_nx_ex k v n)
  pub expire_calm : (k : Text) (n : ℤ) → NeverPanics (w.expire k n)
  pub del_calm : (k : Text) → NeverPanics (w.del k)
  pub exists_calm : (k : Text) → NeverPanics (w.exists k)
  pub incr_calm : (k : Text) (n : ℕ) → NeverPanics (w.incr k n)
  pub keys_calm : (pattern : Text) → NeverPanics (w.keys pattern)

module _ (w : World) (serde : Serde) (calm : Calm w) where
  refresh-NeverPanics : (key : Text) (policy : TtlPolicy) → NeverPanics (refresh w serde key policy)
  unfolding refresh
  refresh-NeverPanics key infinite s = refl
  refresh-NeverPanics key (fixed n) s = refl
  refresh-NeverPanics key (sliding n) s = calm.expire_calm key (as_i64 n) s

  lookup_found-NeverPanics : (key json : Text) → NeverPanics (lookup_found w serde key json)
  unfolding lookup_found
  lookup_found-NeverPanics key json = bind-NeverPanics _ _ (lift-NeverPanics _ _) (λ entry.
      bind-NeverPanics _ _ (refresh-NeverPanics key entry.ttl_policy) (λ u.
        bind-NeverPanics _ _ (λ s. refl)
          (λ now.
            bind-NeverPanics _ _ (lift-NeverPanics _ _)
              (λ updated. bind-NeverPanics _ _ (calm.set_calm key updated) (λ v s. refl)))))

  lookup_raw-NeverPanics :
      (key : Text) (raw : Option Text) → NeverPanics (lookup_raw w serde key raw)
  unfolding lookup_raw
  lookup_raw-NeverPanics key none s = refl
  lookup_raw-NeverPanics key (some json) s = lookup_found-NeverPanics key json s

  pub lookup-NeverPanics : (h : Text) → NeverPanics (lookup w serde h)
  unfolding lookup
  lookup-NeverPanics h = bind-NeverPanics _ _ calm.conn_calm (λ u.
      bind-NeverPanics _ _ (calm.get_calm (cache_key h))
        (λ raw. lookup_raw-NeverPanics (cache_key h) raw))

  pub try_acquire_ghost_lock-NeverPanics :
      (h : Text) → NeverPanics (try_acquire_ghost_lock w serde h)
  unfolding try_acquire_ghost_lock
  try_acquire_ghost_lock-NeverPanics h =
      bind-NeverPanics _ _ calm.conn_calm
        (λ u. bind-NeverPanics _ _ (calm.set_nx_ex_calm (lock_key h) (lit "1") 30) (λ r s. refl))

  await_unlocked-NeverPanics :
      (h : Text) (locked : Bool) → NeverPanics (await_unlocked w serde h locked)
  unfolding await_unlocked
  await_unlocked-NeverPanics h true s = refl
  await_unlocked-NeverPanics h false s =
      bind-NeverPanics _ _ (lookup-NeverPanics h) (λ found s. refl) s

  await_round-NeverPanics : (h : Text) (n : ℕ) → NeverPanics (await_round w serde h n)
  unfolding await_round
  await_round-NeverPanics h n =
      bind-NeverPanics _ _ (λ s. refl)
        (λ u. bind-NeverPanics _ _ calm.conn_calm (λ v.
          bind-NeverPanics _ _ (calm.exists_calm (lock_key h))
            (λ locked. await_unlocked-NeverPanics h locked)))

  or_go_on-NeverPanics :
      (rest : Exec w.Store (Option CacheEntry)) (r : Option (Option CacheEntry))
      → NeverPanics rest
      → NeverPanics (or_go_on w serde rest r)
  or_go_on-NeverPanics rest none h s = h s
  or_go_on-NeverPanics rest (some found) h s = refl

  await_loop-NeverPanics : (n : ℕ) (h : Text) → NeverPanics (await_loop w serde n h)
  unfolding await_loop
  await_loop-NeverPanics zero h s = refl
  await_loop-NeverPanics (suc n) h s =
      bind-NeverPanics _ _ (await_round-NeverPanics h (ghost_lock_retry_max - suc n))
        (λ r. or_go_on-NeverPanics (await_loop w serde n h) r (await_loop-NeverPanics n h)) s

  pub await_ghost_lock_release-NeverPanics :
      (h : Text) → NeverPanics (await_ghost_lock_release w serde h)
  unfolding await_ghost_lock_release
  await_ghost_lock_release-NeverPanics h = await_loop-NeverPanics ghost_lock_retry_max h

  pub incr_metric-NeverPanics : (key : Text) → NeverPanics (incr_metric w serde key)
  unfolding incr_metric
  incr_metric-NeverPanics key =
      bind-NeverPanics _ _ calm.conn_calm (λ u. calm.incr_calm (lit "gc_metric:" ++ key) 1)

  parse_load-NeverPanics : (val : Option Text) → NeverPanics (parse_load w serde val)
  unfolding parse_load
  parse_load-NeverPanics none s = refl
  parse_load-NeverPanics (some v) s = lift-NeverPanics redis_error (serde.parse_f32 v) s

  pub read_load-NeverPanics : (key : Text) → NeverPanics (read_load w serde key)
  unfolding read_load
  read_load-NeverPanics key =
      bind-NeverPanics _ _ (calm.get_calm key) (λ val. parse_load-NeverPanics val)

  load_or_half-NeverPanics : (key : Text) → NeverPanics (load_or_half w serde key)
  unfolding load_or_half
  load_or_half-NeverPanics key =
      bind-NeverPanics _ _
        (λ s. is_ok-panic _ (attempted-ok (read_load w serde key s) (read_load-NeverPanics key s)))
        (λ got s. refl)

  pub loads_of-NeverPanics : (keys : List Text) → NeverPanics (loads_of w serde keys)
  unfolding loads_of
  loads_of-NeverPanics [] s = refl
  loads_of-NeverPanics (key ∷ keys) s =
      bind-NeverPanics _ _ (load_or_half-NeverPanics key)
        (λ load. bind-NeverPanics _ _ (loads_of-NeverPanics keys) (λ loads u. refl)) s
