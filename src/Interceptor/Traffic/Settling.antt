-- ===== src/Interceptor/Traffic/Settling.antt =====
-- The counters and the spawned tasks agree with the requests.
use ghostcacher.Prelude.{
  ℕ, suc, ◌+◌, ◌<◌, ◌≤◌, ◌≡◌, ◌^◌, inl, inr, refl, sym, ap, subst, Option, none, some, List, [],
  ◌∷◌, ◌++◌, length, arith, ◌∙◌,
}
use ghostcacher.Text.{Bytes}
use ghostcacher.Float.{Float}
use ghostcacher.Types.{CacheLookupResult, hit, miss, partial_hit, PromptBlock}
use ghostcacher.Exec.{Exec, ◌>>=◌, ◌>>◌, ok, or_panic, bind-cases, pure-cases, or_panic-cases}
use ghostcacher.Metrics.{MetricsRegistry, record_hit, record_miss, update_hit_ratio}
use ghostcacher.Config.{SidecarConfig}
use ghostcacher.Hasher.{HashResult}
use ghostcacher.Interceptor.Extract.{extract_prompt_blocks}
use ghostcacher.Interceptor.Forward.{Response, forward_raw}
use ghostcacher.Interceptor.Handler.{
  Deps, Sidecar, InterceptorState, run_task, tasks_for, proceed, intercept, intercept_handler,
}
use ghostcacher.Interceptor.Handler.Routing.{Settled}
use ghostcacher.Interceptor.Handler.Pipeline.{proceed_ok}
use ghostcacher.Interceptor.Traffic.{
  Event, asked, ran, elsewhere, redis, serve_all, asked_count, looks_up, lookup_count, Accounted,
}

module _ (fl : Float) where
  record_hit-counts :
      (tokens : ℕ) (m : MetricsRegistry fl)
      → m.hits + 1 < 2 ^ 64
      → ((record_hit fl tokens m).hits ≡ m.hits + 1) × ((record_hit fl tokens m).misses ≡ m.misses)
  unfolding record_hit update_hit_ratio
  record_hit-counts tokens m h = ground (arith, h)

  record_miss-counts :
      (m : MetricsRegistry fl)
      → ((record_miss fl m).hits ≡ m.hits) × ((record_miss fl m).misses ≤ m.misses + 1)
  unfolding record_miss update_hit_ratio
  record_miss-counts m = ground arith

module _ (deps : Deps) where
  open deps use {world, serde, sj, sha, fl, http}

  Kept-Accounted :
      (sc sd : Sidecar deps)
      → sd.metrics ≡ sc.metrics
      → sd.spawned ≡ sc.spawned
      → Accounted deps 0 sc sd
  Kept-Accounted sc sd m s = record {
    all_settled = grind (arith, m, s);
    misses_spawn = grind (arith, m, s);
    none_lost = grind (arith, s);
  }

  Accounted-trans :
      {n k : ℕ} (sc sb sd : Sidecar deps)
      → Accounted deps n sc sb
      → Accounted deps k sb sd
      → Accounted deps (n + k) sc sd
  Accounted-trans sc sb sd a b = record {
    all_settled = omega (arith, a.all_settled, b.all_settled);
    misses_spawn = omega (arith, a.misses_spawn, b.misses_spawn);
    none_lost = omega (arith, a.none_lost, b.none_lost);
  }

  Settled-Accounted :
      (cfg : SidecarConfig) (hr : HashResult) (blocks : List PromptBlock)
      (looked : CacheLookupResult) (sc sd : Sidecar deps)
      → sc.metrics.hits + 1 < 2 ^ 64
      → Settled deps cfg hr.prefix_token_estimate sc.metrics sd.metrics looked
      → sd.spawned ≡ tasks_for hr blocks looked ++ sc.spawned
      → Accounted deps 1 sc sd
  unfolding tasks_for
  Settled-Accounted cfg hr blocks (hit ip id n) sc sd small settled spawned =
      let (h, m) = record_hit-counts fl hr.prefix_token_estimate sc.metrics small in
      record {
        all_settled = grind (arith, h, settled, spawned);
        misses_spawn = grind (arith, m, settled, spawned);
        none_lost = grind (arith, spawned);
      }
  Settled-Accounted cfg hr blocks (partial_hit ip id n) sc sd small settled spawned = absurd settled
  Settled-Accounted cfg hr blocks (miss ip id) sc sd small (here, inl counted) spawned =
      let (h, m) = record_miss-counts fl sc.metrics in
      record {
        all_settled = grind (arith, h, counted, spawned);
        misses_spawn = grind (arith, m, counted, spawned);
        none_lost = grind (arith, spawned);
      }
  Settled-Accounted cfg hr blocks (miss ip id) sc sd small (here, inr same) spawned = record {
    all_settled = grind (arith, same, spawned);
    misses_spawn = grind (arith, same, spawned);
    none_lost = grind (arith, spawned);
  }

  forwarded-Accounted :
      (o : Option (Response http)) (sc : Sidecar deps) {r : Response http} {sd : Sidecar deps}
      → or_panic o sc ≡ (ok r, sd)
      → Accounted deps 0 sc sd
  forwarded-Accounted o sc {sd = sd} h = or_panic-cases o h λ e at.
      Kept-Accounted sc sd (ap (λ (x : Sidecar deps). x.metrics) at)
        (ap (λ (x : Sidecar deps). x.spawned) at)

  proceed-Accounted :
      (state : InterceptorState) (headers : http.HeaderMap) (body : Bytes)
      (blocks : List PromptBlock) (sc : Sidecar deps) {r : Response http} {sd : Sidecar deps}
      → sc.metrics.hits + 1 < 2 ^ 64
      → proceed deps state headers body blocks sc ≡ (ok r, sd)
      → Accounted deps 1 sc sd
  proceed-Accounted state headers body blocks sc {sd = sd} small h =
      let (hr, looked, adapted, behind, hashed, resolved, injected, sent, settled, spawned, at) =
        proceed_ok deps state headers body blocks sc h in
      Settled-Accounted state.cfg hr blocks looked sc sd small settled spawned

  intercept-Accounted :
      (state : InterceptorState) (headers : http.HeaderMap) (bytes : Bytes)
      (blocks : Option (List PromptBlock)) (sc : Sidecar deps) {r : Response http}
      {sd : Sidecar deps}
      → extract_prompt_blocks sj state.provider bytes ≡ blocks
      → sc.metrics.hits + looks_up deps state (some bytes) < 2 ^ 64
      → intercept deps state headers bytes sc ≡ (ok r, sd)
      → Accounted deps (looks_up deps state (some bytes)) sc sd
  unfolding intercept
  intercept-Accounted state headers bytes none sc {r = r} {sd = sd} e =
      rw (e, intercept)
        λ small h. forwarded-Accounted (forward_raw http state.cfg headers bytes none) sc h
  intercept-Accounted state headers bytes (some blocks) sc e =
      rw (e, intercept) λ small h. proceed-Accounted state headers bytes blocks sc small h

  intercept_handler-Accounted :
      (state : InterceptorState) (headers : http.HeaderMap) (body : http.Body) (read : Option Bytes)
      (sc : Sidecar deps) {r : Response http} {sd : Sidecar deps}
      → http.to_bytes body 52428800 ≡ read
      → sc.metrics.hits + looks_up deps state read < 2 ^ 64
      → intercept_handler deps state headers body sc ≡ (ok r, sd)
      → Accounted deps (looks_up deps state read) sc sd
  unfolding intercept_handler
  intercept_handler-Accounted state headers body none sc {sd = sd} e =
      rw (e, intercept_handler)
        λ small h. pure-cases h λ f at.
          Kept-Accounted sc sd (ap (λ (x : Sidecar deps). x.metrics) at)
            (ap (λ (x : Sidecar deps). x.spawned) at)
  intercept_handler-Accounted state headers body (some bytes) sc e =
      rw (e, intercept_handler) λ small h. intercept-Accounted state headers bytes _ sc refl small h

  abbrev stored : (world.Store → world.Store) → Sidecar deps → Sidecar deps
  stored f sc = record sc { store = f sc.store }

  redis-then :
      {A : Type 0} (f : world.Store → world.Store) (m : Exec (Sidecar deps) A) (sc : Sidecar deps)
      → (redis deps f >> m) sc ≡ m (stored f sc)
  unfolding ◌>>=◌ redis
  redis-then f m sc = refl

  from_stored :
      {n : ℕ} (f : world.Store → world.Store) (sc sd : Sidecar deps)
      → Accounted deps n (stored f sc) sd
      → Accounted deps n sc sd
  from_stored f sc sd a = record {
    all_settled = a.all_settled;
    misses_spawn = a.misses_spawn;
    none_lost = a.none_lost;
  }

  -- When all requests are answered, the counters and the tasks agree with their number.
  pub serve_all-Accounted :
      (state : InterceptorState) (es : List (Event deps)) (sc : Sidecar deps)
      {rs : List (Response http)} {sd : Sidecar deps}
      → sc.metrics.hits + lookup_count deps state es < 2 ^ 64
      → serve_all deps state es sc ≡ (ok rs, sd)
      → Accounted deps (lookup_count deps state es) sc sd × (length rs ≡ asked_count deps es)
  unfolding serve_all redis
  serve_all-Accounted state [] sc {sd = sd} small h = pure-cases h λ e at. (
    Kept-Accounted sc sd (ap (λ (x : Sidecar deps). x.metrics) at)
        (ap (λ (x : Sidecar deps). x.spawned) at),
    ap length e,
  )
  serve_all-Accounted state (asked headers body ∷ es) sc {sd = sd} small h =
      bind-cases _ _ _ h λ r s1 e1 h1. bind-cases _ _ _ h1 λ rs s2 e2 h2. pure-cases h2 λ e at.
        let one =
          intercept_handler-Accounted state headers body _ sc refl (omega (arith, small)) e1 in
        let (rest, count) =
          serve_all-Accounted state es s1 (omega (arith, small, one.all_settled, one.none_lost))
            e2 in
        (
          subst (Accounted deps _ sc) (sym at) (Accounted-trans sc s1 s2 one rest),
          ap length e ∙ ap suc count,
        )
  serve_all-Accounted state (ran task ∷ es) sc small h =
      let (rest, count) =
        serve_all-Accounted state es (stored (λ s. (run_task deps task s).1) sc) small
          (sym (redis-then _ (serve_all deps state es) sc) ∙ h) in
      (from_stored (λ s. (run_task deps task s).1) sc _ rest, count)
  serve_all-Accounted state (elsewhere f ∷ es) sc small h =
      let (rest, count) =
        serve_all-Accounted state es (stored f sc) small
          (sym (redis-then f (serve_all deps state es) sc) ∙ h) in
      (from_stored f sc _ rest, count)
