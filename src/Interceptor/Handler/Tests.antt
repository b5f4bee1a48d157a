-- ===== src/Interceptor/Handler/Tests.antt =====
-- Instances of the theorems on two requests, one after the other.
use mathlib.Core.Option.{get_or}
use ghostcacher.Prelude.{◌≡◌, refl, Option, none, some, List, [], ◌∷◌}
use ghostcacher.Text.{Text, Bytes, lit}
use ghostcacher.Crypto.Sample.{toy}
use ghostcacher.Float.Sample.{coarse}
use ghostcacher.Http.Sample.{echo}
use ghostcacher.Json.Sample.{shapes}
use ghostcacher.World.Memory.{Memory, memory, empty}
use ghostcacher.Serde.Sample.{plain}
use ghostcacher.Config.{default_config}
use ghostcacher.Metrics.{new_metrics, record_hit}
use ghostcacher.Types.{PromptBlock, self_hosted, system, user, infinite, CacheEntry}
use ghostcacher.Hasher.{HashResult, hash_prompt_blocks}
use ghostcacher.RedisClient.{lookup, write, release_ghost_lock, touch}
use ghostcacher.Interceptor.Extract.{block}
use ghostcacher.Interceptor.Policy.{pod_url}
use ghostcacher.Interceptor.Forward.{Response, forward_raw}
use ghostcacher.Interceptor.Handler.{
  Deps, InterceptorState, Sidecar, WarmTask, entry_of, proceed, tasks_for,
}
use ghostcacher.Interceptor.Handler.Warmed.{proceed-run_task}

abbrev deps : Deps
deps = record { world = memory; serde = plain; sj = shapes; sha = toy; fl = coarse; http = echo }

abbrev first : List PromptBlock
first = block system (lit "A") ∷ block user (lit "Why?") ∷ []

abbrev second : List PromptBlock
second = block system (lit "A") ∷ block user (lit "How?") ∷ []

abbrev unhashed : HashResult
unhashed = record {
  h_sys = none;
  h_tools = none;
  h_doc = none;
  prefix = [];
  prefix_token_estimate = 0;
}

abbrev hashed : HashResult
hashed = get_or (hash_prompt_blocks toy coarse first) unhashed

abbrev task : WarmTask
task = record {
  prefix = hashed.prefix;
  pod_ip = lit "10.0.0.7";
  pod_id = lit "gpu-7";
  block_count = 1;
  tokens = hashed.prefix_token_estimate;
  policy = infinite;
}

abbrev written : Memory
written = (write memory plain (entry_of 1000 task) (memory.sleep 200 (empty 1000))).1

abbrev unlocked : Memory
unlocked = (release_ghost_lock memory plain task.prefix written).1

abbrev found : CacheEntry
found = touch 1000 (entry_of 1000 task)

abbrev seen : Memory
seen = (lookup memory plain task.prefix unlocked).1

abbrev later : Sidecar deps
later = record { store = unlocked; metrics = new_metrics coarse; spawned = [] }

abbrev local : InterceptorState
local = record { cfg = default_config; provider = self_hosted }

abbrev served : Sidecar deps
served = (proceed deps local [] (0 ∷ []) second later).1

abbrev response : Response echo
response = record { status = 200; headers = (lit "set-cookie", lit "b") ∷ []; body = lit "Hello" }

proceed-run_task_example :
    (adapted : Bytes) × (forward_raw echo default_config [] adapted
        (some (pod_url (lit "10.0.0.7") default_config))
      ≡ some response)
    × (served.metrics ≡ record_hit coarse hashed.prefix_token_estimate (new_metrics coarse))
    × (served.spawned ≡ [])
unfolding hash_prompt_blocks mathlib.Core.Option.bind ghostcacher.Hasher.hash_step
    ghostcacher.Types.is_cacheable tasks_for ghostcacher.Prelude.filter
    ghostcacher.Interceptor.Policy.infer_ttl_policy write ghostcacher.Exec.◌>>=◌
    ghostcacher.Types.redis_ttl_secs entry_of release_ghost_lock lookup ghostcacher.World.remove
    ghostcacher.Text.text_eq ghostcacher.RedisClient.lock_key ghostcacher.RedisClient.cache_key
    ghostcacher.World.put touch ghostcacher.Text.as_bytes ghostcacher.Hasher.hash_block
    ghostcacher.Hasher.sha256_hex ghostcacher.Hasher.tagged_block ghostcacher.Hasher.canonicalize
    ghostcacher.Hasher.collapse ghostcacher.Text.join ghostcacher.Text.split_whitespace
    ghostcacher.Text.trim ghostcacher.Text.trim_end ghostcacher.Text.trim_start
    ghostcacher.Text.is_whitespace proceed ghostcacher.RedisClient.incr_metric
    ghostcacher.Provider.inject_cache_headers forward_raw
proceed-run_task_example =
    proceed-run_task deps local [] (0 ∷ []) first second later task (lit "10.0.0.7") (lit "gpu-7")
      (empty 1000) {hash_result = hashed} {t = written} {u = unlocked} {found = some found}
      {v = seen} {resp = response} {sd = served} refl refl refl refl refl refl refl refl
