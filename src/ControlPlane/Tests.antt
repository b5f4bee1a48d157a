-- ===== src/ControlPlane/Tests.antt =====
-- Instances of the theorems on the eviction engine and the administration API, at a server in
-- memory.
use ghostcacher.Prelude.{
  ℕ, ◌≡◌, refl, ap, sym, ◌%◌, ◌^◌, ◌⊎◌, Option, none, some, List, [], ◌∷◌, ◌+◌, if◌then◌else◌, true,
  false, Bool, arith, map, ◌++◌,
}
use ghostcacher.Prelude.Int.{ℤ}
use mathlib.Core.Option.{some-injective}
use ghostcacher.Text.{Text, lit}
use ghostcacher.Float.Sample.{coarse}
use ghostcacher.Exec.{Result, ok, Error}
use ghostcacher.World.Memory.{Memory, memory, empty, memory_confined}
use ghostcacher.World.Confined.{Same}
use ghostcacher.Json.{Value, null, num, str}
use ghostcacher.RedisClient.{cache_key, lock_key}
use ghostcacher.PodRegistry.{PodInfo, registry, is_dead, evict_dead_pods}
use ghostcacher.PodRegistry.Checks.{ReadAt}
use ghostcacher.PodRegistry.Sample.{stored, stored_confined, pod, terse}
use ghostcacher.ControlPlane.Admin.{
  AdminSerde, Answer, Request, post_heartbeat, post_flush, delete_entry, registered,
  pod_heartbeat_handler,
}
use ghostcacher.ControlPlane.Background.{
  Act, round, request, eviction_loop, health_check_loop, act_all,
}
use ghostcacher.ControlPlane.Background.Untouched.{act_all-Same}
use ghostcacher.ControlPlane.Admin.Heartbeats.{
  Handled, pod_heartbeat_handler_ok, heartbeat-evict_dead_pods,
}

-- A pod is a text: its load, the second of its heartbeat, its id. Arithmetic is on whole numbers.
abbrev plain : AdminSerde
plain = record {
  pod_from_value = λ v. elim v [ str t ↦ terse.from_str t | _ ↦ none ];
  pod_to_value = λ p. str p.pod_id;
  int_to_value = λ n. num (n ∷ []);
  f32_to_value = λ x. num (x ∷ []);
  sum_f32 = λ xs. 0;
  div_f32 = λ x y. x;
  usize_as_f32 = λ n. n;
}

abbrev body : Value
body = str (5 ∷ 990 ∷ lit "gpu-7")

abbrev start : Memory
start = empty 1000

abbrev requests : List Request
requests = post_heartbeat (lit "gpu-7") body ∷ post_flush null ∷ delete_entry (lit "ab") null ∷ []

abbrev acts : List Act
acts = round health_check_loop ∷ map request requests ++ (round eviction_loop ∷ [])

act_all-Same_example :
    Same memory (cache_key (lit "ab")) start (act_all coarse memory stored terse plain acts start).1
    × Same memory
        (lock_key (lit "ab"))
        start
        (act_all coarse memory stored terse plain acts start).1
act_all-Same_example =
    act_all-Same coarse memory stored terse plain memory_confined stored_confined (lit "ab") acts
      start

abbrev accepted : Answer
accepted = registered memory stored terse plain (lit "other") (some tt)

abbrev recorded : Memory
recorded = (pod_heartbeat_handler memory stored terse plain (lit "other") body start).1

pod_heartbeat_handler_ok_example :
    Handled memory stored terse plain (lit "other") body start accepted recorded
unfolding pod_heartbeat_handler ghostcacher.Exec.◌>>=◌ ghostcacher.PodRegistry.upsert_pod
pod_heartbeat_handler_ok_example =
    pod_heartbeat_handler_ok memory stored terse plain (lit "other") body start refl

abbrev checked : Memory
checked = (evict_dead_pods memory stored terse recorded).1

heartbeat-evict_dead_pods_example :
    (now : ℤ) × ReadAt memory stored terse recorded now
    × (stored.field checked registry (lit "gpu-7")
        ≡ (if is_dead now (pod (lit "gpu-7") 5 990) then none else some (5 ∷ 990 ∷ lit "gpu-7")))
unfolding pod_heartbeat_handler ghostcacher.Exec.◌>>=◌ ghostcacher.PodRegistry.upsert_pod
    evict_dead_pods ghostcacher.PodRegistry.Sample.Fields.listing ghostcacher.Text.text_eq
    ghostcacher.Prelude.Int.sub_i64
heartbeat-evict_dead_pods_example =
    heartbeat-evict_dead_pods memory stored terse plain (lit "other") body (pod (lit "gpu-7") 5 990)
      start {t = recorded} {u = checked} refl
      (λ json e. ap terse.from_str (sym (some-injective _ _ e))) refl refl
