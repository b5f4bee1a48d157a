-- ===== src/Interceptor/Handler.antt =====
-- sidecar/src/interceptor.rs: the handler of a request, and the task that it may leave behind.
-- Logging, the request's id and the elapsed time that is logged are left out.
pub mod Warming
pub mod Routing
pub mod Pipeline
pub mod Answers
pub mod Warmed
mod Tests
use mathlib.Core.Option
use mathlib.Core.Option.{get_or}
use ghostcacher.Prelude.{
  ℕ, ◌+◌, ◌*◌, ◌%◌, ◌^◌, Bool, true, false, Option, none, some, List, [], ◌∷◌, ◌++◌, filter, length,
  if◌then◌else◌,
}
use ghostcacher.Prelude.Int.{as_i64}
use ghostcacher.F32.{F32}
use ghostcacher.Text.{Text, Bytes, lit}
use ghostcacher.Crypto.{Sha256}
use ghostcacher.Float.{Float}
use ghostcacher.Types.{
  LlmProvider, from_upstream_url, PromptBlock, is_cacheable, CacheEntry, TtlPolicy,
  CacheLookupResult, hit, partial_hit, miss,
}
use ghostcacher.Exec.{Exec, ok, err, panic, redis_error, ◌>>=◌, ◌>>◌, pure, lift, attempt, or_panic}
use ghostcacher.World.{World}
use ghostcacher.Serde.{Serde}
use ghostcacher.Json.{SerdeJson}
use ghostcacher.Http.{Http}
use ghostcacher.Config.{SidecarConfig}
use ghostcacher.Metrics.{MetricsRegistry, record_hit, record_miss}
use ghostcacher.Hasher.{HashResult, hash_prompt_blocks}
use ghostcacher.Provider.{inject_cache_headers}
use ghostcacher.RedisClient.{
  lookup, write, try_acquire_ghost_lock, release_ghost_lock, await_ghost_lock_release,
  list_pod_loads, incr_metric,
}
use ghostcacher.Interceptor.Extract.{extract_prompt_blocks}
use ghostcacher.Interceptor.Policy.{infer_ttl_policy, pod_url}
use ghostcacher.Interceptor.Forward.{Response, text_response, forward_raw}

pub record InterceptorState : Type 0 where
  pub cfg : SidecarConfig
  pub provider : LlmProvider

abbrev pub new_state : SidecarConfig → InterceptorState
new_state cfg = record { cfg = cfg; provider = from_upstream_url cfg.upstream_url }

-- What `tokio::spawn` gets: the values that the task captures.
pub record WarmTask : Type 0 where
  pub prefix : Text
  pub pod_ip : Text
  pub pod_id : Text
  pub block_count : ℕ
  pub tokens : ℕ
  pub policy : TtlPolicy

-- The code and the services that the handler uses.
pub record Deps : Type 1 where
  pub world : World
  pub serde : Serde
  pub sj : SerdeJson
  pub sha : Sha256
  pub fl : Float
  pub http : Http

-- `iter().filter(|b| b.kind.is_cacheable()).count() as u32`
unfoldable pub count_cacheable : List PromptBlock → ℕ
count_cacheable blocks = length (filter (λ (b : PromptBlock). is_cacheable b.kind) blocks) % 2 ^ 32

unfoldable pub target_of : CacheLookupResult → Text
target_of (hit pod_ip pod_id n) = pod_ip
target_of (partial_hit pod_ip pod_id n) = pod_ip
target_of (miss pod_ip pod_id) = pod_ip

-- The task to spawn for the result of the lookup.
unfoldable pub tasks_for : HashResult → List PromptBlock → CacheLookupResult → List WarmTask
unfolding count_cacheable
tasks_for hash_result blocks (miss pod_ip pod_id) =
    record {
      prefix = hash_result.prefix;
      pod_ip = pod_ip;
      pod_id = pod_id;
      block_count = count_cacheable blocks;
      tokens = hash_result.prefix_token_estimate;
      policy = infer_ttl_policy blocks;
    }
    ∷ []
tasks_for hash_result blocks (hit pod_ip pod_id n) = []
tasks_for hash_result blocks (partial_hit pod_ip pod_id n) = []

unfoldable pub entry_of : ℕ → WarmTask → CacheEntry
entry_of now task = record {
  prefix_hash = task.prefix;
  pod_ip = task.pod_ip;
  pod_id = task.pod_id;
  block_count = task.block_count;
  token_count = task.tokens;
  hit_count = 0;
  created_at = as_i64 now;
  last_hit_at = as_i64 now;
  ttl_policy = task.policy;
}

module _ (deps : Deps) where
  open deps use {world, serde, sj, sha, fl, http}

  -- The store, the metrics and the tasks that were spawned, the newest first.
  pub record Sidecar : Type 0 where
    pub store : world.Store
    pub metrics : MetricsRegistry fl
    pub spawned : List WarmTask

  -- The body of the task.
  unfoldable pub run_task : WarmTask → Exec world.Store (Unit {0})
  unfolding entry_of
  run_task task = do
    (λ s. (ok tt, world.sleep 200 s))
    now ← (λ s. (ok (world.unix_now s), s))
    attempt (write world serde (entry_of now task))
    attempt (release_ghost_lock world serde task.prefix)
    pure tt

  abbrev pub on_store : {A : Type 0} → Exec world.Store A → Exec Sidecar A
  on_store m sc = let (r, s) = m sc.store in (r, record sc { store = s })

  abbrev pub on_metrics : (MetricsRegistry fl → MetricsRegistry fl) → Exec Sidecar (Unit {0})
  on_metrics f sc = (ok tt, record sc { metrics = f sc.metrics })

  abbrev pub spawn : List WarmTask → Exec Sidecar (Unit {0})
  spawn tasks sc = (ok tt, record sc { spawned = tasks ++ sc.spawned })

  -- The pod's id is the least loaded one's, the address is the default's.
  unfoldable pub cold_miss : SidecarConfig → Option (List (Text × F32)) → CacheLookupResult
  cold_miss cfg (some ((pod_id, load) ∷ pods)) = miss cfg.default_pod_ip pod_id
  cold_miss cfg _ = miss cfg.default_pod_ip (lit "default")

  unfoldable pub cold_miss_target : SidecarConfig → Exec Sidecar CacheLookupResult
  unfolding cold_miss
  cold_miss_target cfg = do
    pods ← attempt (on_store (list_pod_loads world serde))
    pure (cold_miss cfg pods)

  unfoldable pub on_hit : ℕ → CacheEntry → Exec Sidecar CacheLookupResult
  on_hit tokens entry = do
    on_metrics (record_hit fl tokens)
    attempt (on_store (incr_metric world serde (lit "hits")))
    pure (hit entry.pod_ip entry.pod_id entry.block_count)

  -- What the wait for a contended lock gave; an error counts as no entry.
  unfoldable pub on_awaited :
      SidecarConfig → ℕ → Option (Option CacheEntry) → Exec Sidecar CacheLookupResult
  unfolding cold_miss_target
  on_awaited cfg tokens (some (some entry)) = do
    on_metrics (record_hit fl tokens)
    pure (hit entry.pod_ip entry.pod_id entry.block_count)
  on_awaited cfg tokens _ = cold_miss_target cfg

  -- No entry: by whether the lock was acquired.
  unfoldable pub on_miss : SidecarConfig → HashResult → Bool → Exec Sidecar CacheLookupResult
  unfolding cold_miss_target on_awaited
  on_miss cfg hash_result false = do
    awaited ← attempt (on_store (await_ghost_lock_release world serde hash_result.prefix))
    on_awaited cfg hash_result.prefix_token_estimate awaited
  on_miss cfg hash_result true = do
    on_metrics (record_miss fl)
    attempt (on_store (incr_metric world serde (lit "misses")))
    cold_miss_target cfg

  -- The match on the lookup; `none` is an error of Redis.
  unfoldable pub resolve_found :
      SidecarConfig → HashResult → Option (Option CacheEntry) → Exec Sidecar CacheLookupResult
  unfolding on_hit on_miss cold_miss_target
  resolve_found cfg hash_result (some (some entry)) = on_hit hash_result.prefix_token_estimate entry
  resolve_found cfg hash_result (some none) = do
    got ← attempt (on_store (try_acquire_ghost_lock world serde hash_result.prefix))
    on_miss cfg hash_result (get_or got false)
  resolve_found cfg hash_result none = cold_miss_target cfg

  unfoldable pub resolve : SidecarConfig → HashResult → Exec Sidecar CacheLookupResult
  unfolding resolve_found
  resolve cfg hash_result = do
    found ← attempt (on_store (lookup world serde hash_result.prefix))
    resolve_found cfg hash_result found

  -- From the prompt blocks on.
  unfoldable pub proceed :
      InterceptorState → http.HeaderMap → Bytes → List PromptBlock → Exec Sidecar (Response http)
  unfolding resolve tasks_for target_of
  proceed state headers body blocks = do
    hash_result ← or_panic (hash_prompt_blocks sha fl blocks)
    looked_up ← resolve state.cfg hash_result
    adapted ← or_panic (inject_cache_headers sj state.provider body blocks)
    spawn (tasks_for hash_result blocks looked_up)
    or_panic (
        forward_raw http state.cfg headers adapted (some (pod_url (target_of looked_up) state.cfg)))

  unfoldable pub intercept :
      InterceptorState → http.HeaderMap → Bytes → Exec Sidecar (Response http)
  unfolding proceed
  intercept state headers body = elim (extract_prompt_blocks sj state.provider body) [
    | some blocks ↦ proceed state headers body blocks
    | none ↦ or_panic (forward_raw http state.cfg headers body none)
  ]

  unfoldable pub intercept_handler :
      InterceptorState → http.HeaderMap → http.Body → Exec Sidecar (Response http)
  unfolding intercept
  intercept_handler state headers body = elim (http.to_bytes body (50 * 1024 * 1024)) [
    | some body_bytes ↦ intercept state headers body_bytes
    | none ↦ pure (text_response http 400 (lit "Body read error"))
  ]
