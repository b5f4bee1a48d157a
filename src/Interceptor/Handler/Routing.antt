-- ===== src/Interceptor/Handler/Routing.antt =====
-- Where a request goes, what is counted, and the task that is spawned.
use mathlib.Core.Path.{subst₂}
use ghostcacher.Prelude.{
  ◌≡◌, refl, sym, ap, ◌∙◌, subst, ℕ, Bool, true, false, ◌⊎◌, inl, inr, Option, some, none, List, [],
  ◌∷◌,
}
use mathlib.Core.Option.{get_or}
use ghostcacher.F32.{F32}
use ghostcacher.Text.{Text, lit}
use ghostcacher.Types.{CacheLookupResult, hit, partial_hit, miss, CacheEntry}
use ghostcacher.Exec.{
  Exec, Result, ok, err, panic, attempt, attempted, bind-cases, pure-cases, pure,
}
use ghostcacher.Metrics.{MetricsRegistry, record_hit, record_miss}
use ghostcacher.Config.{SidecarConfig}
use ghostcacher.Hasher.{HashResult}
use ghostcacher.RedisClient.{
  lookup, try_acquire_ghost_lock, await_ghost_lock_release, list_pod_loads, incr_metric,
}
use ghostcacher.Interceptor.Handler.{
  Deps, Sidecar, on_store, cold_miss, cold_miss_target, on_hit, on_awaited, on_miss, resolve_found,
  resolve,
}

module _ (deps : Deps) where
  open deps use {world, serde, sj, sha, fl, http}

  -- The metrics and the tasks are as they were.
  abbrev Kept : Sidecar deps → Sidecar deps → Type 0
  Kept sc sd = (sd.metrics ≡ sc.metrics) × (sd.spawned ≡ sc.spawned)

  attempted-Kept :
      {A : Type 0} (r : Result A × world.Store) (sc : Sidecar deps) {o : Option A}
      {sd : Sidecar deps}
      → attempted (r.0, record sc { store = r.1 }) ≡ (ok o, sd)
      → Kept sc sd
  attempted-Kept (ok a, u) sc h =
      pure-cases h
        λ e at. (ap (λ (x : Sidecar deps). x.metrics) at, ap (λ (x : Sidecar deps). x.spawned) at)
  attempted-Kept (err e, u) sc h =
      pure-cases h
        λ e at. (ap (λ (x : Sidecar deps). x.metrics) at, ap (λ (x : Sidecar deps). x.spawned) at)
  attempted-Kept (panic, u) sc h = cc

  on_store-Kept :
      {A : Type 0} (m : Exec world.Store A) (sc : Sidecar deps) {o : Option A} {sd : Sidecar deps}
      → attempt (on_store deps m) sc ≡ (ok o, sd)
      → Kept sc sd
  on_store-Kept m sc h = attempted-Kept (m sc.store) sc h

  -- What the lookup may come to: a hit is counted as one; of the misses some are counted and some
  -- not, and each goes to the default address; there are no partial hits.
  abbrev pub Settled :
      SidecarConfig → ℕ → MetricsRegistry fl → MetricsRegistry fl → CacheLookupResult → Type 0
  Settled cfg tokens m n (hit pod_ip pod_id blocks) = n ≡ record_hit fl tokens m
  Settled cfg tokens m n (partial_hit pod_ip pod_id blocks) = ⊥
  Settled cfg tokens m n (miss pod_ip pod_id) =
      (pod_ip ≡ cfg.default_pod_ip) × ((n ≡ record_miss fl m) ⊎ (n ≡ m))

  abbrev SettledAt : SidecarConfig → ℕ → Sidecar deps → CacheLookupResult → Sidecar deps → Type 0
  SettledAt cfg tokens sc r sd =
      Settled cfg tokens sc.metrics sd.metrics r × (sd.spawned ≡ sc.spawned)

  cold_miss-Settled :
      (cfg : SidecarConfig) (tokens : ℕ) (pods : Option (List (Text × F32)))
      {m n : MetricsRegistry fl}
      → (n ≡ record_miss fl m) ⊎ (n ≡ m)
      → Settled cfg tokens m n (cold_miss deps cfg pods)
  unfolding cold_miss
  cold_miss-Settled cfg tokens none c = (refl, c)
  cold_miss-Settled cfg tokens (some []) c = (refl, c)
  cold_miss-Settled cfg tokens (some ((id, load) ∷ pods)) c = (refl, c)

  -- From a state whose metrics count the miss, or do not.
  cold_miss_target-SettledAt :
      (cfg : SidecarConfig) (tokens : ℕ) (sc sb : Sidecar deps) {r : CacheLookupResult}
      {sd : Sidecar deps}
      → (sb.metrics ≡ record_miss fl sc.metrics) ⊎ (sb.metrics ≡ sc.metrics)
      → sb.spawned ≡ sc.spawned
      → cold_miss_target deps cfg sb ≡ (ok r, sd)
      → SettledAt cfg tokens sc r sd
  unfolding cold_miss_target
  cold_miss_target-SettledAt cfg tokens sc sb c sp h = bind-cases _ _ _ h λ pods s1 e1 h1.
      pure-cases h1 λ returned at.
        let (km, ks) = on_store-Kept (list_pod_loads world serde) sb e1 in
        subst₂ (λ q d. SettledAt cfg tokens sc q d) (sym returned) (sym at)
          (
            cold_miss-Settled cfg tokens pods (
                subst
                  (λ (n : MetricsRegistry fl). (n ≡ record_miss fl sc.metrics) ⊎ (n ≡ sc.metrics))
                  (sym km) c),
            ks ∙ sp,
          )

  hit-SettledAt :
      (cfg : SidecarConfig) (tokens : ℕ) (entry : CacheEntry) (sc s1 : Sidecar deps)
      {r : CacheLookupResult} {sd : Sidecar deps}
      → s1.metrics ≡ record_hit fl tokens sc.metrics
      → s1.spawned ≡ sc.spawned
      → pure (hit entry.pod_ip entry.pod_id entry.block_count) s1 ≡ (ok r, sd)
      → SettledAt cfg tokens sc r sd
  hit-SettledAt cfg tokens entry sc s1 m sp h =
      pure-cases h
        λ returned at. subst₂ (λ q d. SettledAt cfg tokens sc q d) (sym returned) (sym at) (m, sp)

  on_hit-SettledAt :
      (cfg : SidecarConfig) (tokens : ℕ) (entry : CacheEntry) (sc sb : Sidecar deps)
      {r : CacheLookupResult} {sd : Sidecar deps}
      → sb.metrics ≡ sc.metrics
      → sb.spawned ≡ sc.spawned
      → on_hit deps tokens entry sb ≡ (ok r, sd)
      → SettledAt cfg tokens sc r sd
  unfolding on_hit
  on_hit-SettledAt cfg tokens entry sc sb m sp h = bind-cases _ _ _ h λ u s1 e1 h1.
      pure-cases e1 λ un at1. bind-cases _ _ _ h1 λ o s2 e2 h2.
        let (km, ks) = on_store-Kept (incr_metric world serde (lit "hits")) s1 e2 in
        hit-SettledAt cfg tokens entry sc s2
          (km ∙ ap (λ (x : Sidecar deps). x.metrics) at1 ∙ ap (record_hit fl tokens) m)
          (ks ∙ ap (λ (x : Sidecar deps). x.spawned) at1 ∙ sp) h2

  on_awaited-SettledAt :
      (cfg : SidecarConfig) (tokens : ℕ) (awaited : Option (Option CacheEntry))
      (sc sb : Sidecar deps) {r : CacheLookupResult} {sd : Sidecar deps}
      → sb.metrics ≡ sc.metrics
      → sb.spawned ≡ sc.spawned
      → on_awaited deps cfg tokens awaited sb ≡ (ok r, sd)
      → SettledAt cfg tokens sc r sd
  unfolding on_awaited
  on_awaited-SettledAt cfg tokens none sc sb m sp h =
      cold_miss_target-SettledAt cfg tokens sc sb (inr m) sp h
  on_awaited-SettledAt cfg tokens (some none) sc sb m sp h =
      cold_miss_target-SettledAt cfg tokens sc sb (inr m) sp h
  on_awaited-SettledAt cfg tokens (some (some entry)) sc sb m sp h =
      bind-cases _ _ _ h λ u s1 e1 h1. pure-cases e1 λ un at1.
        hit-SettledAt cfg tokens entry sc s1
          (ap (λ (x : Sidecar deps). x.metrics) at1 ∙ ap (record_hit fl tokens) m)
          (ap (λ (x : Sidecar deps). x.spawned) at1 ∙ sp) h1

  on_miss-SettledAt :
      (cfg : SidecarConfig) (hash_result : HashResult) (acquired : Bool) (sc sb : Sidecar deps)
      {r : CacheLookupResult} {sd : Sidecar deps}
      → sb.metrics ≡ sc.metrics
      → sb.spawned ≡ sc.spawned
      → on_miss deps cfg hash_result acquired sb ≡ (ok r, sd)
      → SettledAt cfg hash_result.prefix_token_estimate sc r sd
  unfolding on_miss
  on_miss-SettledAt cfg hr false sc sb m sp h = bind-cases _ _ _ h λ awaited s1 e1 h1.
      let (km, ks) = on_store-Kept (await_ghost_lock_release world serde hr.prefix) sb e1 in
      on_awaited-SettledAt cfg hr.prefix_token_estimate awaited sc s1 (km ∙ m) (ks ∙ sp) h1
  on_miss-SettledAt cfg hr true sc sb m sp h = bind-cases _ _ _ h λ u s1 e1 h1.
      pure-cases e1 λ un at1. bind-cases _ _ _ h1 λ o s2 e2 h2.
        let (km, ks) = on_store-Kept (incr_metric world serde (lit "misses")) s1 e2 in
        cold_miss_target-SettledAt cfg hr.prefix_token_estimate sc s2
          (inl (km ∙ ap (λ (x : Sidecar deps). x.metrics) at1 ∙ ap (record_miss fl) m))
          (ks ∙ ap (λ (x : Sidecar deps). x.spawned) at1 ∙ sp) h2

  resolve_found-SettledAt :
      (cfg : SidecarConfig) (hash_result : HashResult) (found : Option (Option CacheEntry))
      (sc sb : Sidecar deps) {r : CacheLookupResult} {sd : Sidecar deps}
      → sb.metrics ≡ sc.metrics
      → sb.spawned ≡ sc.spawned
      → resolve_found deps cfg hash_result found sb ≡ (ok r, sd)
      → SettledAt cfg hash_result.prefix_token_estimate sc r sd
  unfolding resolve_found
  resolve_found-SettledAt cfg hr none sc sb m sp h =
      cold_miss_target-SettledAt cfg hr.prefix_token_estimate sc sb (inr m) sp h
  resolve_found-SettledAt cfg hr (some none) sc sb m sp h = bind-cases _ _ _ h λ got s1 e1 h1.
      let (km, ks) = on_store-Kept (try_acquire_ghost_lock world serde hr.prefix) sb e1 in
      on_miss-SettledAt cfg hr (get_or got false) sc s1 (km ∙ m) (ks ∙ sp) h1
  resolve_found-SettledAt cfg hr (some (some entry)) sc sb m sp h =
      on_hit-SettledAt cfg hr.prefix_token_estimate entry sc sb m sp h

  -- When the lookup of a request comes to an end, it is a hit that is counted as one, or a miss
  -- that goes to the configured default address, whatever pod is the least loaded; it is never a
  -- partial hit, and it spawns no task.
  pub resolve_ok :
      (cfg : SidecarConfig) (hash_result : HashResult) (sc : Sidecar deps) {r : CacheLookupResult}
      {sd : Sidecar deps}
      → resolve deps cfg hash_result sc ≡ (ok r, sd)
      → Settled cfg hash_result.prefix_token_estimate sc.metrics sd.metrics r
        × (sd.spawned ≡ sc.spawned)
  unfolding resolve
  resolve_ok cfg hr sc h = bind-cases _ _ _ h λ found s1 e1 h1.
      let (km, ks) = on_store-Kept (lookup world serde hr.prefix) sc e1 in
      resolve_found-SettledAt cfg hr found sc s1 km ks h1
