-- ===== src/Router.antt =====
-- sidecar/src/router.rs: the sidecar's endpoints. Middleware and the extraction of parameters are
-- left to the crate `axum`.
pub mod Probes
mod Tests
use ghostcacher.Prelude.{ℕ, Bool, true, false, Option, none, some, if◌then◌else◌}
use mathlib.Core.Option
use mathlib.Core.Option.{get_or}
use ghostcacher.Text.{Text, lit}
use ghostcacher.F32.{F32}
use ghostcacher.Exec.{Exec, ◌>>=◌, pure, attempt}
use ghostcacher.World.{World, is_some}
use ghostcacher.Json.{Value, bool, str, obj, end, field, get, as_str}
use ghostcacher.Types.{LlmProvider, anthropic, open_ai, bedrock, vertex, self_hosted}
use ghostcacher.RedisClient.{incr_metric}
use ghostcacher.Interceptor.Forward.{Response}
use ghostcacher.Interceptor.Handler.{Deps, Sidecar, InterceptorState, on_store, intercept_handler}

-- `{:?}` of a provider.
unfoldable pub debug_provider : LlmProvider → Text
debug_provider anthropic = lit "Anthropic"
debug_provider open_ai = lit "OpenAI"
debug_provider bedrock = lit "Bedrock"
debug_provider vertex = lit "Vertex"
debug_provider self_hosted = lit "SelfHosted"

unfoldable pub health_page : Value
health_page = obj (
    field (lit "service") (str (lit "ghostcacher-sidecar"))
      (field (lit "status") (str (lit "ok")) end))

unfoldable pub ready_page : Bool → Value
ready_page redis_ok = obj (
    field (lit "redis") (bool redis_ok)
      (field (lit "status") (str (if redis_ok then lit "ready" else lit "not_ready")) end))

-- The number is as `serde_json` writes it.
unfoldable pub status_page : (F32 → Value) → InterceptorState → Value
unfolding debug_provider
status_page f32_to_value state = obj (
    field (lit "hbm_threshold") (f32_to_value state.cfg.hbm_swap_threshold) (
      field (lit "listen_addr") (str state.cfg.listen_addr) (
        field (lit "provider") (str (debug_provider state.provider)) (
          field (lit "rdma_enabled") (bool state.cfg.rdma_enabled) (
            field (lit "upstream_url") (str state.cfg.upstream_url)
              (field (lit "version") (str (lit "2.1.0")) end))))))

-- `body.get("scope").and_then(|s| s.as_str()).unwrap_or("session")`
unfoldable pub flush_scope : Value → Text
flush_scope body = get_or (Option.bind (get (lit "scope") body) as_str) (lit "session")

unfoldable pub flush_page : Value → Value
unfolding flush_scope
flush_page body =
    obj (field (lit "flushed") (bool true) (field (lit "scope") (str (flush_scope body)) end))

module _ (deps : Deps) (f32_to_value : F32 → Value) where
  open deps use {world, serde, http}

  -- The endpoints and what their handlers read; the three paths of the first are one to the
  -- handler.
  pub data Endpoint : Type 0 where
    api_call : http.HeaderMap → http.Body → Endpoint
    healthz : Endpoint
    readyz : Endpoint
    gc_status : Endpoint
    gc_flush : Value → Endpoint

  pub data Reply : Type 0 where
    page : Value → Reply
    forwarded : Response http → Reply

  -- `incr_metric(..).await.is_ok()`
  unfoldable pub ready_handler : Exec (Sidecar deps) Reply
  ready_handler = do
    counted ← attempt (on_store deps (incr_metric world serde (lit "readyz_probe")))
    pure (page (ready_page (is_some counted)))

  unfoldable pub serve : InterceptorState → Endpoint → Exec (Sidecar deps) Reply
  unfolding ready_handler
  serve state (api_call headers body) = do
    response ← intercept_handler deps state headers body
    pure (forwarded response)
  serve state healthz = pure (page health_page)
  serve state readyz = ready_handler
  serve state gc_status = pure (page (status_page f32_to_value state))
  serve state (gc_flush body) = pure (page (flush_page body))
