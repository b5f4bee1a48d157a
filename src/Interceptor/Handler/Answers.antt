-- ===== src/Interceptor/Handler/Answers.antt =====
-- The handler answers, whatever Redis does.
use mathlib.Core.Option.{get_or}
use ghostcacher.Prelude.{
  ◌≡◌, refl, sym, subst, ℕ, Bool, true, false, Option, some, none, List, inl, inr, Option-cases,
}
use ghostcacher.Text.{Text, Bytes, lit}
use ghostcacher.Types.{PromptBlock, CacheEntry}
use ghostcacher.Exec.{Exec, Result, ok, err, panic, attempt, attempted}
use ghostcacher.Exec.Frame.{Keeps}
use ghostcacher.Exec.Outcome.{is_panic, Safe, bind-Safe, or_panic-Safe, attempted-ok, safely}
use ghostcacher.Config.{SidecarConfig}
use ghostcacher.Hasher.{HashResult}
use ghostcacher.Hasher.Reference.{hash_prompt_blocks-eq-reference}
use ghostcacher.Provider.{inject_cache_headers}
use ghostcacher.Provider.Total.{IsAdaptable, inject_cache_headers-Total}
use ghostcacher.RedisClient.{
  lookup, try_acquire_ghost_lock, await_ghost_lock_release, list_pod_loads, incr_metric,
}
use ghostcacher.RedisClient.Panics.{
  Calm, lookup-NeverPanics, try_acquire_ghost_lock-NeverPanics,
  await_ghost_lock_release-NeverPanics, incr_metric-NeverPanics,
}
use ghostcacher.RedisClient.Numeric.{
  Numeric, Peaceful, StaysNumeric, lookup-StaysNumeric, try_acquire-StaysNumeric,
  await-StaysNumeric, incr_metric-StaysNumeric,
}
use ghostcacher.RedisClient.Numeric.Listing.{list_pod_loads-StaysNumeric, list_pod_loads-calm}
use ghostcacher.Interceptor.Extract.{extract_prompt_blocks}
use ghostcacher.Interceptor.Forward.{Response, forward_raw, respond, outgoing}
use ghostcacher.Interceptor.Handler.{
  Deps, Sidecar, InterceptorState, on_store, cold_miss_target, on_hit, on_awaited, on_miss,
  resolve_found, resolve, proceed, intercept, intercept_handler,
}

-- The store behind an operation whose errors are looked at.
attempted-store :
    {deps : Deps} {A : Type 0} (r : Result A × deps.world.Store) (sc : Sidecar deps)
    → (attempted (r.0, record sc { store = r.1 })).1.store ≡ r.1
attempted-store (ok a, t) sc = refl
attempted-store (err e, t) sc = refl
attempted-store (panic, t) sc = refl

module _ (deps : Deps) (calm : Calm deps.world) (peaceful : Peaceful deps.world deps.serde) where
  open deps use {world, serde, sj, sha, fl, http}

  -- No load in Redis is NaN.
  abbrev pub HasNumbers : Sidecar deps → Type 0
  HasNumbers sc = Numeric world serde sc.store

  -- An operation on Redis whose errors are looked at.
  on_store-Safe :
      {A : Type 0} (m : Exec world.Store A)
      → ((s : world.Store) → Numeric world serde s → is_panic (m s).0 ≡ false)
      → Keeps (StaysNumeric world serde) m
      → Safe HasNumbers (attempt (on_store deps m))
  on_store-Safe m quiet keeps sc numeric = (
    attempted-ok ((m sc.store).0, record sc { store = (m sc.store).1 }) (quiet sc.store numeric),
    subst (Numeric world serde) (sym (attempted-store (m sc.store) sc)) (keeps sc.store numeric),
  )

  cold_miss_target-Safe : (cfg : SidecarConfig) → Safe HasNumbers (cold_miss_target deps cfg)
  unfolding cold_miss_target
  cold_miss_target-Safe cfg =
      bind-Safe _ _
        (on_store-Safe (list_pod_loads world serde) (list_pod_loads-calm world serde peaceful calm)
          (list_pod_loads-StaysNumeric world serde peaceful))
        (λ pods sc n. (refl, n))

  incr-Safe : (key : Text) → Safe HasNumbers (attempt (on_store deps (incr_metric world serde key)))
  incr-Safe key =
      on_store-Safe (incr_metric world serde key)
        (λ s n. incr_metric-NeverPanics world serde calm key s)
        (incr_metric-StaysNumeric world serde peaceful key)

  on_hit-Safe : (tokens : ℕ) (entry : CacheEntry) → Safe HasNumbers (on_hit deps tokens entry)
  unfolding on_hit
  on_hit-Safe tokens entry =
      bind-Safe _ _ (λ sc n. (refl, n))
        (λ u. bind-Safe _ _ (incr-Safe (lit "hits")) (λ v sc n. (refl, n)))

  on_awaited-Safe :
      (cfg : SidecarConfig) (tokens : ℕ) (awaited : Option (Option CacheEntry))
      → Safe HasNumbers (on_awaited deps cfg tokens awaited)
  unfolding on_awaited
  on_awaited-Safe cfg tokens none = cold_miss_target-Safe cfg
  on_awaited-Safe cfg tokens (some none) = cold_miss_target-Safe cfg
  on_awaited-Safe cfg tokens (some (some entry)) =
      bind-Safe _ _ (λ sc n. (refl, n)) (λ u sc n. (refl, n))

  on_miss-Safe :
      (cfg : SidecarConfig) (hr : HashResult) (acquired : Bool)
      → Safe HasNumbers (on_miss deps cfg hr acquired)
  unfolding on_miss
  on_miss-Safe cfg hr false =
      bind-Safe _ _
        (on_store-Safe (await_ghost_lock_release world serde hr.prefix)
          (λ s n. await_ghost_lock_release-NeverPanics world serde calm hr.prefix s)
          (await-StaysNumeric world serde peaceful hr.prefix))
        (λ awaited. on_awaited-Safe cfg hr.prefix_token_estimate awaited)
  on_miss-Safe cfg hr true =
      bind-Safe _ _ (λ sc n. (refl, n))
        (λ u. bind-Safe _ _ (incr-Safe (lit "misses")) (λ v. cold_miss_target-Safe cfg))

  resolve_found-Safe :
      (cfg : SidecarConfig) (hr : HashResult) (found : Option (Option CacheEntry))
      → Safe HasNumbers (resolve_found deps cfg hr found)
  unfolding resolve_found
  resolve_found-Safe cfg hr none = cold_miss_target-Safe cfg
  resolve_found-Safe cfg hr (some none) =
      bind-Safe _ _
        (on_store-Safe (try_acquire_ghost_lock world serde hr.prefix)
          (λ s n. try_acquire_ghost_lock-NeverPanics world serde calm hr.prefix s)
          (try_acquire-StaysNumeric world serde peaceful hr.prefix))
        (λ got. on_miss-Safe cfg hr (get_or got false))
  resolve_found-Safe cfg hr (some (some entry)) = on_hit-Safe hr.prefix_token_estimate entry

  resolve-Safe : (cfg : SidecarConfig) (hr : HashResult) → Safe HasNumbers (resolve deps cfg hr)
  unfolding resolve
  resolve-Safe cfg hr =
      bind-Safe _ _
        (on_store-Safe (lookup world serde hr.prefix)
          (λ s n. lookup-NeverPanics world serde calm hr.prefix s)
          (lookup-StaysNumeric world serde peaceful hr.prefix))
        (λ found. resolve_found-Safe cfg hr found)

  forward_raw-answers :
      (cfg : SidecarConfig) (headers : http.HeaderMap) (body : Bytes) (url : Option Text)
      → http.builds cfg.request_timeout_secs ≡ true
      → (r : Response http) × (forward_raw http cfg headers body url ≡ some r)
  unfolding forward_raw
  forward_raw-answers cfg headers body url b =
      (respond http (http.send (outgoing http cfg headers body url)), rw (b, forward_raw) refl)

  proceed-Safe :
      (state : InterceptorState) (headers : http.HeaderMap) (body : Bytes)
      (blocks : List PromptBlock) {adapted : Bytes}
      → http.builds state.cfg.request_timeout_secs ≡ true
      → inject_cache_headers sj state.provider body blocks ≡ some adapted
      → Safe HasNumbers (proceed deps state headers body blocks)
  unfolding proceed
  proceed-Safe state headers body blocks b i =
      bind-Safe _ _ (or_panic-Safe HasNumbers _ (hash_prompt_blocks-eq-reference sha fl blocks))
        (λ hr. bind-Safe _ _ (resolve-Safe state.cfg hr) (λ looked.
          bind-Safe _ _ (or_panic-Safe HasNumbers _ i) (λ adapted.
            bind-Safe _ _ (λ sc n. (refl, n))
              (λ u.
                or_panic-Safe HasNumbers _ (forward_raw-answers state.cfg headers adapted _ b).1))))

  intercept-Safe :
      (state : InterceptorState) (headers : http.HeaderMap) (bytes : Bytes)
      → http.builds state.cfg.request_timeout_secs ≡ true
      → IsAdaptable sj bytes
      → Safe HasNumbers (intercept deps state headers bytes)
  unfolding intercept
  intercept-Safe state headers bytes b adapts sc n =
      elim (Option-cases (extract_prompt_blocks sj state.provider bytes)) [
        | inl e ↦
            rw (e, intercept)
              (or_panic-Safe HasNumbers _ (forward_raw-answers state.cfg headers bytes none b).1 sc
                n)
        | inr (blocks, e) ↦
            rw (e, intercept)
              (proceed-Safe state headers bytes blocks b
                (inject_cache_headers-Total sj state.provider bytes blocks adapts).1 sc n)
      ]

  pub intercept_handler-Safe :
      (state : InterceptorState) (headers : http.HeaderMap) (body : http.Body)
      → http.builds state.cfg.request_timeout_secs ≡ true
      → ((bytes : Bytes) → http.to_bytes body 52428800 ≡ some bytes → IsAdaptable sj bytes)
      → Safe HasNumbers (intercept_handler deps state headers body)
  unfolding intercept_handler
  intercept_handler-Safe state headers body b requests sc n =
      elim (Option-cases (http.to_bytes body 52428800)) [
        | inl e ↦ rw (e, intercept_handler) (refl, n)
        | inr (bytes, e) ↦
            rw (e, intercept_handler) (intercept-Safe state headers bytes b (requests bytes e) sc n)
      ]

  -- A request is answered whatever Redis does, errors of every command included, if no load in Redis
  -- is NaN when it comes in and no other process stores one while the code sleeps, the commands do
  -- not panic, leave alone the keys that they do not name, and list keys that fit the pattern, the
  -- client can be built, and the body, where it can be read, is no JSON, or is an object or `null`
  -- whose messages, where it has an array of them, are objects. No load is NaN then either.
  pub intercept_handler_answers :
      (state : InterceptorState) (headers : http.HeaderMap) (body : http.Body) (sc : Sidecar deps)
      → http.builds state.cfg.request_timeout_secs ≡ true
      → ((bytes : Bytes) → http.to_bytes body 52428800 ≡ some bytes → IsAdaptable sj bytes)
      → Numeric world serde sc.store
      → (r : Response http) × (sd : Sidecar deps) × (intercept_handler deps state headers body sc
          ≡ (ok r, sd))
        × Numeric world serde sd.store
  intercept_handler_answers state headers body sc b requests numeric =
      safely (intercept_handler deps state headers body)
        (intercept_handler-Safe state headers body b requests) sc numeric
