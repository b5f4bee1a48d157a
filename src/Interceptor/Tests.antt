-- ===== src/Interceptor/Tests.antt =====
-- Instances of the theorems on the interceptor.
use mathlib.Core.Option
use mathlib.Core.Option.{get_or, some-injective}
use ghostcacher.Prelude.{
  ◌≡◌, refl, subst, ap, ◌∙◌, ◌%◌, ◌^◌, arith, ◌⊎◌, inl, inr, ℕ, Bool, true, false, some, none,
  Option, List, [], ◌∷◌, ◌++◌, if◌then◌else◌,
}
use ghostcacher.Text.{Text, Bytes, lit, text_eq}
use ghostcacher.Crypto.Sample.{toy}
use ghostcacher.Float.Sample.{coarse}
use ghostcacher.Http.{values}
use ghostcacher.Http.Sample.{echo}
use ghostcacher.Json.{Value, Items, nil, cons, end, field, obj, arr, str, get, as_array}
use ghostcacher.Json.Sample.{shapes, message, request, first_turn, read_bytes}
use ghostcacher.World.Memory.{Memory, memory, alone, alone_confined, alone_commands, empty}
use ghostcacher.Serde.Sample.{plain, with_nan}
use ghostcacher.Config.{default_config}
use ghostcacher.Metrics.{new_metrics}
use ghostcacher.Exec.{same_ok, ok, or_panic}
use ghostcacher.Types.{
  self_hosted, bedrock, PromptBlock, system, tools, document, user, infinite, fixed, CacheEntry,
  CacheLookupResult, hit, miss, redis_ttl_secs,
}
use ghostcacher.Hasher.{HashResult, hash_prompt_blocks}
use ghostcacher.Provider.{inject_cache_headers}
use ghostcacher.Provider.Total.{IsRequest, IsAdaptable}
use ghostcacher.RedisClient.{cache_key, lock_key, touch, lookup, write, release_ghost_lock}
use ghostcacher.RedisClient.Panics.{Calm}
use ghostcacher.RedisClient.Numeric.{IsLoadKey, Numeric, Peaceful}
use ghostcacher.F32.{F32, half, is_nan}
use ghostcacher.World.{put}
use ghostcacher.Prelude.{filter, Bool-cases, sym, false}
use ghostcacher.Text.{starts_with}
use ghostcacher.Interceptor.Handler.Answers.{intercept_handler_answers}
use ghostcacher.Interceptor.Extract.{block, extract_anthropic_blocks}
use ghostcacher.Interceptor.Extract.Turns.{extract_anthropic_blocks_turn}
use ghostcacher.Interceptor.Policy.{has_doc, infer_ttl_policy, pod_url}
use ghostcacher.Prelude.{All}
use ghostcacher.Interceptor.Policy.Port.{said, IsDigit, pod_url_ok}
use ghostcacher.Interceptor.Policy.Inferred.{infer_ttl_policy_ok}
use ghostcacher.Interceptor.Forward.{Response, forward_raw}
use ghostcacher.Interceptor.Forward.Headers.{last_only, forward_raw_ok}
use ghostcacher.Interceptor.Handler.{
  Deps, InterceptorState, Sidecar, WarmTask, entry_of, run_task, resolve, proceed,
  intercept_handler, tasks_for,
}
use ghostcacher.Interceptor.Handler.Warming.{run_task_ok}
use ghostcacher.Interceptor.Handler.Routing.{Settled, resolve_ok}
use ghostcacher.Interceptor.Handler.Pipeline.{address, proceed_ok}

abbrev blocks : List PromptBlock
blocks = block system (lit "Be brief.") ∷ block document (lit "A b") ∷ block user (lit "Why?") ∷ []

abbrev pub deps : Deps
deps = record { world = memory; serde = plain; sj = shapes; sha = toy; fl = coarse; http = echo }

abbrev pub sidecar : Sidecar deps
sidecar = record { store = empty 1000; metrics = new_metrics coarse; spawned = [] }

infer_ttl_policy_ok_example :
    infer_ttl_policy blocks ≡ (if has_doc blocks then fixed 14400 else infinite)
infer_ttl_policy_ok_example = infer_ttl_policy_ok blocks

abbrev pub headers : List (Text × Bytes)
headers = (lit "host", lit "gc") ∷ (lit "content-length", lit "9") ∷ []

forward_raw_ok_example :
    (r : Response echo) × (forward_raw echo default_config headers (lit "{}") none ≡ some r)
    × (r.status ≡ 200)
    × (r.body ≡ lit "Hello")
    × ((k : Text)
        → values k r.headers
          ≡ last_only []
              (values k ((lit "set-cookie", lit "a") ∷ (lit "set-cookie", lit "b") ∷ [])))
forward_raw_ok_example = forward_raw_ok echo default_config headers (lit "{}") none refl refl

abbrev pub task : WarmTask
task = record {
  prefix = lit "ab";
  pod_ip = lit "127.0.0.1";
  pod_id = lit "default";
  block_count = 2;
  tokens = 900;
  policy = fixed 14400;
}

abbrev warmed : Memory
warmed = (write memory plain (entry_of 1000 task) (memory.sleep 200 (empty 1000))).1

abbrev freed : Memory
freed = (release_ghost_lock memory plain (lit "ab") warmed).1

run_task_ok_example :
    (run_task deps task (empty 1000) ≡ (ok tt, freed))
    × ((json : Text) × (plain.to_string (entry_of 1000 task) ≡ some json)
        × (freed.db.value (cache_key (lit "ab")) ≡ some json)
        × (freed.db.ttl (cache_key (lit "ab")) ≡ redis_ttl_secs (fixed 14400)))
    × (freed.db.value (lock_key (lit "ab")) ≡ none)
unfolding write ghostcacher.Exec.◌>>=◌ redis_ttl_secs entry_of release_ghost_lock
run_task_ok_example = run_task_ok deps task (empty 1000) {t = warmed} {u = freed} refl refl

abbrev hashed : HashResult
hashed = record {
  h_sys = none;
  h_tools = none;
  h_doc = none;
  prefix = lit "ab";
  prefix_token_estimate = 900;
}

abbrev resolved : Sidecar deps
resolved = (resolve deps default_config hashed sidecar).1

resolve_ok_example :
    Settled deps default_config 900 sidecar.metrics resolved.metrics
      (miss (lit "127.0.0.1") (lit "default"))
    × (resolved.spawned ≡ [])
unfolding resolve ghostcacher.Exec.◌>>=◌ lookup ghostcacher.RedisClient.try_acquire_ghost_lock
    ghostcacher.World.claim ghostcacher.RedisClient.incr_metric
    ghostcacher.RedisClient.list_pod_loads ghostcacher.RedisClient.load_or_half text_eq lock_key
    ghostcacher.Prelude.Sort.sort ghostcacher.Prelude.filter ghostcacher.Text.starts_with
resolve_ok_example = resolve_ok deps default_config hashed sidecar {sd = resolved} refl

abbrev other_turn : Value
other_turn = request (cons (message (lit "user") (lit "Goodbye")) nil)

extract_anthropic_blocks_turn_example :
    hash_prompt_blocks toy coarse (block system (lit "Be brief.") ∷ block user (lit "Hello") ∷ [])
    ≡ hash_prompt_blocks toy coarse
        (block system (lit "Be brief.") ∷ block user (lit "Goodbye") ∷ [])
unfolding get ghostcacher.Json.lookup text_eq Option.bind as_array extract_anthropic_blocks
    ghostcacher.Json.as_str
extract_anthropic_blocks_turn_example =
    extract_anthropic_blocks_turn shapes toy coarse first_turn other_turn []
      (message (lit "user") (lit "Hello")) (message (lit "user") (lit "Goodbye")) refl refl refl
      refl refl refl

abbrev response : Response echo
response = record { status = 200; headers = (lit "set-cookie", lit "b") ∷ []; body = lit "Hello" }

abbrev local : InterceptorState
local = record { cfg = default_config; provider = self_hosted }

abbrev question : List PromptBlock
question = block user (lit "Why?") ∷ []

abbrev answered : Sidecar deps
answered = (proceed deps local headers (0 ∷ []) question sidecar).1

proceed_ok_example :
    (hash_result : HashResult) × (looked : CacheLookupResult) × (adapted : Bytes)
    × (behind : Sidecar deps) × (hash_prompt_blocks toy coarse question ≡ some hash_result)
    × (resolve deps default_config hash_result sidecar ≡ (ok looked, behind))
    × (inject_cache_headers shapes self_hosted (0 ∷ []) question ≡ some adapted)
    × (forward_raw echo default_config headers adapted
          (some (pod_url (address looked) default_config))
        ≡ some response)
    × Settled deps default_config hash_result.prefix_token_estimate sidecar.metrics answered.metrics
        looked
    × (answered.spawned ≡ tasks_for hash_result question looked ++ [])
    × (answered.store ≡ behind.store)
unfolding proceed ghostcacher.Exec.◌>>=◌ hash_prompt_blocks Option.bind ghostcacher.Hasher.hash_step
    ghostcacher.Types.is_cacheable lookup ghostcacher.RedisClient.try_acquire_ghost_lock
    ghostcacher.World.claim ghostcacher.RedisClient.incr_metric
    ghostcacher.RedisClient.list_pod_loads ghostcacher.Prelude.filter ghostcacher.Text.starts_with
    lock_key inject_cache_headers forward_raw text_eq
proceed_ok_example =
    proceed_ok deps local headers (0 ∷ []) question sidecar {resp = response} {sd = answered} refl

pub alone-Calm : Calm alone
alone-Calm = record {
  conn_calm = λ s. refl;
  get_calm = λ k s. refl;
  set_calm = λ k v s. refl;
  set_ex_calm = λ k v n s. refl;
  set_nx_ex_calm = λ k v n s. refl;
  expire_calm = λ k n s. refl;
  del_calm = λ k s. refl;
  exists_calm = λ k s. refl;
  incr_calm = λ k n s. refl;
  keys_calm = λ pattern s. refl;
}

-- The keys that `KEYS` finds fit the pattern.
filter-IsLoadKey :
    (known : List Text) → All IsLoadKey (filter (λ k. starts_with (lit "pod_load:") k) known)
unfolding filter
filter-IsLoadKey [] = tt
filter-IsLoadKey (k ∷ known) = elim (Bool-cases (starts_with (lit "pod_load:") k)) [
  | inl e ↦ rw e (e, filter-IsLoadKey known)
  | inr e ↦ rw e (filter-IsLoadKey known)
]

pub alone-Peaceful : Peaceful alone with_nan
alone-Peaceful = record {
  confined = alone_confined;
  commands = alone_commands;
  keys_match =
      λ {found} {s} {t} e. subst (All IsLoadKey) ((same_ok e).0) (filter-IsLoadKey s.known);
  sleep_numeric = λ ms s n. n;
}

-- Redis with the loads of two pods, 0.5 and 0.
abbrev pub stocked : Memory
stocked = record (empty 1000) {
  db =
      put (lit "pod_load:a") (half ∷ []) none
        (put (lit "pod_load:b") (0 ∷ []) none (empty 1000).db);
  known = lit "pod_load:a" ∷ lit "pod_load:b" ∷ [];
}

two_loads :
    (a b : Bool) (v : Text) (x : F32)
    → (if a then some (half ∷ []) else if b then some (0 ∷ []) else none) ≡ some v
    → with_nan.parse_f32 v ≡ some x
    → is_nan x ≡ false
unfolding is_nan
two_loads true b v x e f =
    subst (λ o. o ≡ some x → is_nan x ≡ false) (ap with_nan.parse_f32 (some-injective _ _ e))
      (λ g. ap is_nan (sym (some-injective _ _ g))) f
two_loads false true v x e f =
    subst (λ o. o ≡ some x → is_nan x ≡ false) (ap with_nan.parse_f32 (some-injective _ _ e))
      (λ g. ap is_nan (sym (some-injective _ _ g))) f
two_loads false false v x e f = cc

pub stocked-Numeric : Numeric alone with_nan stocked
unfolding put
stocked-Numeric key v x is_load has parsed =
    two_loads (text_eq (lit "pod_load:a") key) (text_eq (lit "pod_load:b") key) v x has parsed

abbrev pub deps_alone : Deps
deps_alone = record {
  world = alone;
  serde = with_nan;
  sj = shapes;
  sha = toy;
  fl = coarse;
  http = echo;
}

abbrev pub sidecar_alone : Sidecar deps_alone
sidecar_alone = record { store = stocked; metrics = new_metrics coarse; spawned = [] }

abbrev pub managed : InterceptorState
managed = record { cfg = default_config; provider = bedrock }

first_turn-IsRequest : IsRequest first_turn
unfolding get ghostcacher.Json.lookup text_eq
first_turn-IsRequest = (refl, refl)

pub first_turn-IsAdaptable : (bytes : Bytes) → some (0 ∷ []) ≡ some bytes → IsAdaptable shapes bytes
first_turn-IsAdaptable bytes e json read =
    subst IsRequest (some-injective _ _ (ap read_bytes (some-injective _ _ e) ∙ read))
      first_turn-IsRequest

intercept_handler_answers_example :
    (r : Response echo) × (sd : Sidecar deps_alone) × (intercept_handler deps_alone managed headers
        (some (0 ∷ []))
        sidecar_alone
      ≡ (ok r, sd))
    × Numeric alone with_nan sd.store
intercept_handler_answers_example =
    intercept_handler_answers deps_alone alone-Calm alone-Peaceful managed headers (some (0 ∷ []))
      sidecar_alone refl first_turn-IsAdaptable stocked-Numeric

pod_url_ok_example :
    (port : Text) × (said 0 port ≡ 8000)
    × All IsDigit port
    × (pod_url (lit "10.0.0.7") default_config
        ≡ lit "http://" ++ (lit "10.0.0.7" ++ (lit ":" ++ (port ++ lit "/v1/messages"))))
pod_url_ok_example = pod_url_ok (lit "10.0.0.7") default_config (omega arith)
