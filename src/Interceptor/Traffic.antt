-- ===== src/Interceptor/Traffic.antt =====
-- sidecar/src/interceptor.rs: what a sidecar does from its start on. A request is atomic to the
-- model; what the tasks that it spawned, other sidecars and the passing time do to Redis happens
-- between two requests, in any order.
pub mod Settling
pub mod Counted
mod Tests
use ghostcacher.Prelude.{
  ℕ, suc, ◌+◌, ◌≡◌, ◌≤◌, Option, none, some, List, [], ◌∷◌, length, if◌then◌else◌,
}
use ghostcacher.Text.{Bytes}
use ghostcacher.Exec.{Exec, ok, ◌>>=◌, ◌>>◌, pure}
use ghostcacher.World.{is_some}
use ghostcacher.Interceptor.Extract.{extract_prompt_blocks}
use ghostcacher.Interceptor.Forward.{Response}
use ghostcacher.Interceptor.Handler.{
  Deps, Sidecar, InterceptorState, WarmTask, run_task, intercept_handler,
}

module _ (deps : Deps) where
  open deps use {world, sj, http}

  -- A request that came in, a task of this sidecar that ran, or a change of Redis by anything else.
  pub data Event : Type 0 where
    asked : http.HeaderMap → http.Body → Event
    ran : WarmTask → Event
    elsewhere : (world.Store → world.Store) → Event

  -- The end of a task, a panic too, changes nothing but what it wrote.
  unfoldable pub redis : (world.Store → world.Store) → Exec (Sidecar deps) (Unit {0})
  redis f sc = (ok tt, record sc { store = f sc.store })

  unfoldable pub serve_all :
      InterceptorState → List Event → Exec (Sidecar deps) (List (Response http))
  serve_all state [] = pure []
  serve_all state (asked headers body ∷ es) = do
    response ← intercept_handler deps state headers body
    responses ← serve_all state es
    pure (response ∷ responses)
  serve_all state (ran task ∷ es) = do redis (λ s. (run_task deps task s).1); serve_all state es
  serve_all state (elsewhere f ∷ es) = do redis f; serve_all state es

  abbrev pub asked_count : List Event → ℕ
  asked_count [] = 0
  asked_count (asked headers body ∷ es) = suc (asked_count es)
  asked_count (ran task ∷ es) = asked_count es
  asked_count (elsewhere f ∷ es) = asked_count es

  abbrev pub looks_up : InterceptorState → Option Bytes → ℕ
  looks_up state none = 0
  looks_up state (some bytes) =
      if is_some (extract_prompt_blocks sj state.provider bytes) then 1 else 0

  -- The requests from which blocks can be extracted.
  abbrev pub lookup_count : InterceptorState → List Event → ℕ
  lookup_count state [] = 0
  lookup_count state (asked headers body ∷ es) =
      looks_up state (http.to_bytes body 52428800) + lookup_count state es
  lookup_count state (ran task ∷ es) = lookup_count state es
  lookup_count state (elsewhere f ∷ es) = lookup_count state es

  -- From one state to a later one, with n lookups between: each was a hit that was counted or a
  -- spawned task, and no more misses were counted than tasks spawned.
  pub record Accounted (n : ℕ) (sc sd : Sidecar deps) : Type 0 where
    pub all_settled : sd.metrics.hits + length sd.spawned ≡ sc.metrics.hits + length sc.spawned + n
    pub misses_spawn : sd.metrics.misses + length sc.spawned ≤ sc.metrics.misses + length sd.spawned
    pub none_lost : length sc.spawned ≤ length sd.spawned
