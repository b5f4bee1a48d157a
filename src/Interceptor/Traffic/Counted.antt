-- ===== src/Interceptor/Traffic/Counted.antt =====
-- Every request of a sidecar is answered, and the counters agree with that.
use ghostcacher.Prelude.{some, ◌+◌, ◌<◌, ◌≡◌, ◌^◌, refl, List, [], ◌∷◌, length, true, All}
use ghostcacher.Text.{Bytes}
use ghostcacher.Exec.{ok}
use ghostcacher.Exec.Frame.{Keeps, bind-Keeps, attempt-Keeps}
use ghostcacher.Exec.Outcome.{Safe, bind-Safe, safely}
use ghostcacher.Provider.Total.{IsAdaptable}
use ghostcacher.RedisClient.{write, release_ghost_lock}
use ghostcacher.RedisClient.Panics.{Calm}
use ghostcacher.RedisClient.Numeric.{
  Numeric, Peaceful, StaysNumeric, StaysNumeric-IsFrame, write-StaysNumeric, release-StaysNumeric,
}
use ghostcacher.Interceptor.Forward.{Response}
use ghostcacher.Interceptor.Handler.{Deps, Sidecar, InterceptorState, WarmTask, entry_of, run_task}
use ghostcacher.Interceptor.Handler.Answers.{HasNumbers, intercept_handler-Safe}
use ghostcacher.Interceptor.Traffic.{
  Event, asked, ran, elsewhere, redis, serve_all, asked_count, lookup_count, Accounted,
}
use ghostcacher.Interceptor.Traffic.Settling.{serve_all-Accounted}

module _ (deps : Deps) where
  open deps use {world, serde, sj, http}

  -- A request whose body, where it can be read, can be adapted; any task; and a change of Redis by
  -- others that stores no load that is NaN.
  abbrev pub Acceptable : Event deps → Type 0
  Acceptable (asked headers body) =
      (bytes : Bytes) → http.to_bytes body 52428800 ≡ some bytes → IsAdaptable sj bytes
  Acceptable (ran task) = Unit
  Acceptable (elsewhere f) = (s : world.Store) → Numeric world serde s → Numeric world serde (f s)

  module _ (calm : Calm world) (peaceful : Peaceful world serde) where
    run_task-StaysNumeric :
        (task : WarmTask) → Keeps (StaysNumeric world serde) (run_task deps task)
    unfolding run_task
    run_task-StaysNumeric task =
        let frame = StaysNumeric-IsFrame world serde in
        bind-Keeps _ frame _ _ (λ s. peaceful.sleep_numeric 200 s)
          λ u.
            bind-Keeps _ frame _ _ (λ s. frame.stays s)
              λ now.
                bind-Keeps _ frame _ _
                  (attempt-Keeps _ frame (write world serde (entry_of now task))
                    (write-StaysNumeric world serde peaceful (entry_of now task)))
                  λ o.
                    bind-Keeps _ frame _ _
                      (attempt-Keeps _ frame (release_ghost_lock world serde task.prefix)
                        (release-StaysNumeric world serde peaceful task.prefix))
                      λ v s. frame.stays s

    serve_all-Safe :
        (state : InterceptorState) (es : List (Event deps))
        → http.builds state.cfg.request_timeout_secs ≡ true
        → All Acceptable es
        → Safe (HasNumbers deps calm peaceful) (serve_all deps state es)
    unfolding serve_all redis
    serve_all-Safe state [] b h = λ sc n. (refl, n)
    serve_all-Safe state (asked headers body ∷ es) b (this, rest) =
        bind-Safe _ _ (intercept_handler-Safe deps calm peaceful state headers body b this)
          (λ r. bind-Safe _ _ (serve_all-Safe state es b rest) (λ rs sc n. (refl, n)))
    serve_all-Safe state (ran task ∷ es) b (this, rest) =
        bind-Safe _ _ (λ sc n. (refl, run_task-StaysNumeric task sc.store n))
          (λ u. serve_all-Safe state es b rest)
    serve_all-Safe state (elsewhere f ∷ es) b (this, rest) =
        bind-Safe _ _ (λ sc n. (refl, this sc.store n)) (λ u. serve_all-Safe state es b rest)

    -- A sidecar whose client can be built answers every request, whatever its tasks, other sidecars
    -- and the passing time do to Redis between the requests, if no load in Redis is NaN at the start
    -- and no other process stores one, the commands do not panic, leave alone the keys that they do
    -- not name, and list keys that fit the pattern, the counter of hits does not overflow, and each
    -- body that can be read is no JSON, or is an object or `null` whose messages, where it has an
    -- array of them, are objects. The hits that were counted and the tasks that were spawned are then
    -- together as many as the requests from which blocks can be extracted, and no more misses were
    -- counted than tasks spawned.
    pub serve_all_ok :
        (state : InterceptorState) (es : List (Event deps)) (sc : Sidecar deps)
        → http.builds state.cfg.request_timeout_secs ≡ true
        → All Acceptable es
        → Numeric world serde sc.store
        → sc.metrics.hits + lookup_count deps state es < 2 ^ 64
        → (rs : List (Response http)) × (sd : Sidecar deps) × (serve_all deps state es sc
            ≡ (ok rs, sd))
          × (length rs ≡ asked_count deps es)
          × Accounted deps (lookup_count deps state es) sc sd
    serve_all_ok state es sc b h numeric small =
        let (rs, sd, done, still) =
          safely (serve_all deps state es) (serve_all-Safe state es b h) sc numeric in
        let (settled, count) = serve_all-Accounted deps state es sc small done in
        (rs, sd, done, count, settled)
