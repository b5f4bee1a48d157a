-- ===== src/Router/Probes.antt =====
-- sidecar/src/router.rs: the endpoints beside the API calls, and what they change.
use ghostcacher.Prelude.{◌≡◌, refl, ◌∙◌, ◌⊎◌, Bool, true, false}
use ghostcacher.Text.{Text, lit, text_eq}
use ghostcacher.F32.{F32}
use ghostcacher.Exec.{Exec, Error, ok, err}
use ghostcacher.Exec.Frame.{Keeps, IsFrame, bind-Keeps, attempt-Keeps}
use ghostcacher.World.Confined.{Same, Same-IsFrame, Confined}
use ghostcacher.Json.{Value}
use ghostcacher.RedisClient.{cache_key, lock_key, incr_metric}
use ghostcacher.Interceptor.Handler.{Deps, Sidecar, InterceptorState, on_store}
use ghostcacher.Router.{
  Endpoint, api_call, healthz, readyz, gc_status, gc_flush, ready_handler, serve,
}

module _ (deps : Deps) (f32_to_value : F32 → Value) where
  open deps use {world, serde}

  -- What the increment of the probe's counter came to.
  abbrev pub Probed : Sidecar deps → Bool → Sidecar deps → Type 0
  Probed sc redis_ok sd =
      ((redis_ok ≡ true)
        × (incr_metric world serde (lit "readyz_probe") sc.store ≡ (ok tt, sd.store)))
      ⊎ ((redis_ok ≡ false)
          × ((e : Error) × (incr_metric world serde (lit "readyz_probe") sc.store
                ≡ (err e, sd.store))))

  -- A key of the store is as it was, and so are the metrics and the spawned tasks.
  abbrev pub Untouched : Text → Sidecar deps → Sidecar deps → Type 0
  Untouched j sc sd =
      Same world j sc.store sd.store × (sd.metrics ≡ sc.metrics) × (sd.spawned ≡ sc.spawned)

  Untouched-IsFrame : (j : Text) → IsFrame (Untouched j)
  Untouched-IsFrame j = record {
    stays = λ s. ((refl, refl), refl, refl);
    goes_on = λ first second.
        ((Same-IsFrame world j).goes_on first.0 second.0, second.1 ∙ first.1, second.2 ∙ first.2);
  }

  abbrev pub is_api_call : Endpoint deps f32_to_value → Bool
  is_api_call (api_call headers body) = true
  is_api_call _ = false

  module _ (confined : Confined world) (j : Text)
      (apart : text_eq (lit "gc_metric:readyz_probe") j ≡ false) where
    frame : IsFrame (Untouched j)
    frame = Untouched-IsFrame j

    incr_metric-Keeps : Keeps (Same world j) (incr_metric world serde (lit "readyz_probe"))
    unfolding incr_metric
    incr_metric-Keeps =
        bind-Keeps _ (Same-IsFrame world j) _ _ (confined.conn_confined j)
          λ u. confined.incr_confined _ 1 j apart

    ready_handler-Keeps : Keeps (Untouched j) (ready_handler deps f32_to_value)
    unfolding ready_handler
    ready_handler-Keeps =
        bind-Keeps _ frame _ _
          (attempt-Keeps _ frame (on_store deps (incr_metric world serde (lit "readyz_probe")))
            (λ sc. (incr_metric-Keeps sc.store, refl, refl)))
          λ o sc. frame.stays sc

    serve-Keeps :
        (state : InterceptorState) (endpoint : Endpoint deps f32_to_value)
        → is_api_call endpoint ≡ false
        → Keeps (Untouched j) (serve deps f32_to_value state endpoint)
    unfolding serve
    serve-Keeps state (api_call headers body) e = cc
    serve-Keeps state healthz e = λ sc. frame.stays sc
    serve-Keeps state readyz e = ready_handler-Keeps
    serve-Keeps state gc_status e = λ sc. frame.stays sc
    serve-Keeps state (gc_flush body) e = λ sc. frame.stays sc

  -- A request to an endpoint that is no API call, the flush among them, changes neither the stored
  -- entry of a prefix nor its time to live, its lock, the metrics or the spawned tasks, however it
  -- ends, as long as commands leave the keys that they do not name alone.
  pub serve-Untouched :
      (confined : Confined world) (state : InterceptorState) (endpoint : Endpoint deps f32_to_value)
      (h : Text) (sc : Sidecar deps)
      → is_api_call endpoint ≡ false
      → Untouched (cache_key h) sc (serve deps f32_to_value state endpoint sc).1
        × Untouched (lock_key h) sc (serve deps f32_to_value state endpoint sc).1
  unfolding cache_key lock_key text_eq
  serve-Untouched confined state endpoint h sc e = (
    serve-Keeps confined (cache_key h) refl state endpoint e sc,
    serve-Keeps confined (lock_key h) refl state endpoint e sc,
  )
