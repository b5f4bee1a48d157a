-- ===== src/ControlPlane/Admin.antt =====
-- control-plane/src/admin.rs, and the routes of control-plane/src/main.rs: the administration API.
-- Middleware, the extraction of parameters and the sending of replies are left to the crate `axum`.
pub mod Isolation
pub mod Heartbeats
pub mod Totals
use ghostcacher.Prelude.{
  ℕ, ◌+◌, ◌%◌, ◌^◌, Bool, true, Option, none, some, List, [], ◌∷◌, map, length, if◌then◌else◌, ◌==◌,
}
use mathlib.Core.Option.{get_or}
use mathlib.Core.Option
use ghostcacher.Text.{Text, lit}
use ghostcacher.F32.{F32}
use ghostcacher.Exec.{Exec, ◌>>=◌, pure, attempt}
use ghostcacher.World.{World}
use ghostcacher.Hashes.{Hashes}
use ghostcacher.Json.{Value, Items, bool, str, arr, obj, nil, cons, end, field, get, as_str}
use ghostcacher.PodRegistry.{PodInfo, PodSerde, upsert_pod, list_pods}
use ghostcacher.ControlPlane.Eviction.{flush}

-- What `serde_json` makes of pods and numbers, and the arithmetic of `f32`.
pub record AdminSerde : Type 0 where
  pub pod_from_value : Value → Option PodInfo
  pub pod_to_value : PodInfo → Value
  pub int_to_value : ℕ → Value
  pub f32_to_value : F32 → Value
  pub sum_f32 : List F32 → F32
  pub div_f32 : F32 → F32 → F32
  pub usize_as_f32 : ℕ → F32

pub data Answer : Type 0 where
  json : Value → Answer
  status : ℕ → Answer
  text : Text → Answer

abbrev pub bad_request : Answer
bad_request = status 400

abbrev pub internal_server_error : Answer
internal_server_error = status 500

abbrev pub to_items : List Value → Items
to_items [] = nil
to_items (v ∷ vs) = cons v (to_items vs)

-- The routes and the parameters that their handlers read.
pub data Request : Type 0 where
  get_pods : Request
  post_heartbeat : Text → Value → Request
  get_cache : Request
  post_flush : Value → Request
  delete_entry : Text → Value → Request
  get_stats : Request
  get_metrics : Request
  get_healthz : Request

-- `sum::<u32>()` from a number on, wrapping as a release build does.
unfoldable pub sum_u32 : ℕ → List ℕ → ℕ
sum_u32 acc [] = acc
sum_u32 acc (n ∷ ns) = sum_u32 ((acc + n) % 2 ^ 32) ns

unfoldable pub total_kv_blocks : List PodInfo → ℕ
unfolding sum_u32
total_kv_blocks pods = sum_u32 0 (map (λ (p : PodInfo). p.kv_block_count) pods)

-- `body.get("scope").and_then(|s| s.as_str()).unwrap_or("session")`
unfoldable pub scope_of : Value → Text
scope_of body = get_or (Option.bind (get (lit "scope") body) as_str) (lit "session")

module _ (w : World) (hashes : Hashes w) (serde : PodSerde) (sv : AdminSerde) where
  abbrev pub listed : Option (List PodInfo) → Answer
  listed none = internal_server_error
  listed (some pods) = json (
      obj (
        field (lit "count") (sv.int_to_value (length pods))
          (field (lit "pods") (arr (to_items (map sv.pod_to_value pods))) end)))

  unfoldable pub list_pods_handler : Exec w.Store Answer
  list_pods_handler = do pods ← attempt (list_pods w hashes serde); pure (listed pods)

  abbrev pub registered : Text → Option (Unit {0}) → Answer
  registered pod_id none = internal_server_error
  registered pod_id (some u) =
      json (obj (field (lit "pod_id") (str pod_id) (field (lit "registered") (bool true) end)))

  unfoldable pub register : Text → Option PodInfo → Exec w.Store Answer
  register pod_id none = pure bad_request
  register pod_id (some info) = do
    done ← attempt (upsert_pod w hashes serde info)
    pure (registered pod_id done)

  unfoldable pub pod_heartbeat_handler : Text → Value → Exec w.Store Answer
  unfolding register
  pod_heartbeat_handler pod_id body = register pod_id (sv.pod_from_value body)

  unfoldable pub list_cache_entries_handler : Exec w.Store Answer
  list_cache_entries_handler = pure (
      json (
        obj (
          field (lit "entries") (arr nil)
            (field (lit "note") (str (lit "Use /gc/stats for aggregate metrics")) end))))

  abbrev pub flushed : Text → Option ℕ → Answer
  flushed scope count = json (
      obj (
        field (lit "flushed") (sv.int_to_value (get_or count 0))
          (field (lit "scope") (str scope) end)))

  unfoldable pub flush_handler : Value → Exec w.Store Answer
  unfolding scope_of
  flush_handler body = do
    count ← attempt (flush w (scope_of body))
    pure (flushed (scope_of body) count)

  unfoldable pub avg_hbm : List PodInfo → F32
  avg_hbm [] = 0
  avg_hbm (p ∷ pods) =
      sv.div_f32 (sv.sum_f32 (map (λ (q : PodInfo). q.hbm_util) (p ∷ pods)))
        (sv.usize_as_f32 (length (p ∷ pods)))

  abbrev pub cluster : List PodInfo → Answer
  cluster pods = json (
      obj (
        field (lit "cluster")
          (obj (
            field (lit "avg_hbm_util") (sv.f32_to_value (avg_hbm pods)) (
              field (lit "pod_count") (sv.int_to_value (length pods))
                (field (lit "total_kv_blocks") (sv.int_to_value (total_kv_blocks pods)) end))))
          (field (lit "version") (str (lit "2.1.0")) end)))

  unfoldable pub cluster_stats_handler : Exec w.Store Answer
  unfolding avg_hbm total_kv_blocks
  cluster_stats_handler = do
    pods ← attempt (list_pods w hashes serde)
    pure (cluster (get_or pods []))

  unfoldable pub metrics_handler : Exec w.Store Answer
  metrics_handler = pure (text (lit "# GhostCacher Control Plane metrics\n"))

  -- The handler that the router has for a request.
  unfoldable pub route : Request → Exec w.Store Answer
  route get_pods = list_pods_handler
  route (post_heartbeat pod_id body) = pod_heartbeat_handler pod_id body
  route get_cache = list_cache_entries_handler
  route (post_flush body) = flush_handler body
  route (delete_entry hash body) = flush_handler body
  route get_stats = cluster_stats_handler
  route get_metrics = metrics_handler
  route get_healthz = pure (text (lit "ok"))

  unfoldable pub route_all : List Request → Exec w.Store (List Answer)
  unfolding route
  route_all [] = pure []
  route_all (r ∷ rs) = do a ← route r; rest ← route_all rs; pure (a ∷ rest)
