-- ===== src/ControlPlane/Admin/Isolation.antt =====
-- control-plane/src/admin.rs: the keys of the affinity map under requests to the API.
use ghostcacher.Prelude.{◌≡◌, refl, false, Option, none, some, List, [], ◌∷◌}
use ghostcacher.Text.{Text, text_eq}
use mathlib.Core.Option.{get_or}
use ghostcacher.Prelude.Int.{as_i64}
use ghostcacher.Json.{Value}
use ghostcacher.Exec.{Exec, serde_error, ◌>>=◌, pure, attempt}
use ghostcacher.Exec.Frame.{Keeps, IsFrame, bind-Keeps, lift-Keeps, or_panic-Keeps, attempt-Keeps}
use ghostcacher.World.{World}
use ghostcacher.World.Confined.{Same, Same-IsFrame, Confined, HashesConfined}
use ghostcacher.Hashes.{Hashes}
use ghostcacher.RedisClient.{cache_key, lock_key}
use ghostcacher.PodRegistry.{
  PodInfo, PodSerde, registry, load_key, heartbeat_key, upsert_pod, list_pods, decode_pods,
  sort_pods,
}
use ghostcacher.ControlPlane.Eviction.{flush}
use ghostcacher.ControlPlane.Admin.{
  AdminSerde, Answer, registered, listed, flushed, scope_of, cluster, Request, get_pods,
  post_heartbeat, get_cache, post_flush, delete_entry, get_stats, get_metrics, get_healthz,
  list_pods_handler, register, pod_heartbeat_handler, list_cache_entries_handler, flush_handler,
  cluster_stats_handler, metrics_handler, route, route_all,
}

-- A key that is no pod's load and no pod's heartbeat.
pub record IsApart (j : Text) : Type 0 where
  pub from_load : (p : Text) → text_eq (load_key p) j ≡ false
  pub from_heartbeat : (p : Text) → text_eq (heartbeat_key p) j ≡ false

pub cache_key-IsApart : (h : Text) → IsApart (cache_key h)
unfolding cache_key load_key heartbeat_key text_eq
cache_key-IsApart h = record { from_load = λ p. refl; from_heartbeat = λ p. refl }

pub lock_key-IsApart : (h : Text) → IsApart (lock_key h)
unfolding lock_key load_key heartbeat_key text_eq
lock_key-IsApart h = record { from_load = λ p. refl; from_heartbeat = λ p. refl }

module _ (w : World) (hashes : Hashes w) (serde : PodSerde) (sv : AdminSerde)
    (confined : Confined w) (apart_hashes : HashesConfined w hashes) where
  module _ (j : Text) (apart : IsApart j) where
    frame : IsFrame (Same w j)
    frame = Same-IsFrame w j

    upsert_pod-Keeps : (info : PodInfo) → Keeps (Same w j) (upsert_pod w hashes serde info)
    unfolding upsert_pod
    upsert_pod-Keeps info = bind-Keeps _ frame _ _ (confined.conn_confined j) λ u.
        bind-Keeps _ frame _ _ (lift-Keeps _ frame serde_error (serde.to_string info)) λ json.
          bind-Keeps _ frame _ _ (apart_hashes.hset_confined registry info.pod_id json j) λ v.
            bind-Keeps _ frame _ _
              (confined.set_ex_confined (load_key info.pod_id) (serde.write_f32 info.hbm_util) 45 j
                (apart.from_load info.pod_id))
              λ x.
                bind-Keeps _ frame _ _ (λ s. frame.stays s)
                  λ now.
                    confined.set_ex_confined (heartbeat_key info.pod_id)
                      (serde.write_i64 (as_i64 now)) 45 j (apart.from_heartbeat info.pod_id)

    list_pods-Keeps : Keeps (Same w j) (list_pods w hashes serde)
    unfolding list_pods
    list_pods-Keeps = bind-Keeps _ frame _ _ (confined.conn_confined j) λ u.
        bind-Keeps _ frame _ _ (apart_hashes.hgetall_confined registry j)
          λ all. or_panic-Keeps _ frame (sort_pods (decode_pods w hashes serde all))

    -- A handler that answers by what an operation on the registry came to.
    answer-Keeps :
        {A : Type 0} (m : Exec w.Store A) (answer : Option A → Answer)
        → Keeps (Same w j) m
        → Keeps (Same w j) (attempt m >>= λ o. pure (answer o))
    answer-Keeps m answer h =
        bind-Keeps _ frame _ _ (attempt-Keeps _ frame m h) λ o s. frame.stays s

    register-Keeps :
        (pod_id : Text) (o : Option PodInfo)
        → Keeps (Same w j) (register w hashes serde sv pod_id o)
    unfolding register
    register-Keeps pod_id none = λ s. frame.stays s
    register-Keeps pod_id (some info) =
        answer-Keeps _ (registered w hashes serde sv pod_id) (upsert_pod-Keeps info)

    flush_handler-Keeps : (body : Value) → Keeps (Same w j) (flush_handler w hashes serde sv body)
    unfolding flush_handler flush
    flush_handler-Keeps body =
        answer-Keeps (flush w (scope_of body)) (flushed w hashes serde sv (scope_of body))
          (λ s. frame.stays s)

    pub route-Keeps : (r : Request) → Keeps (Same w j) (route w hashes serde sv r)
    unfolding route list_pods_handler pod_heartbeat_handler list_cache_entries_handler
        cluster_stats_handler metrics_handler
    route-Keeps get_pods = answer-Keeps _ (listed w hashes serde sv) list_pods-Keeps
    route-Keeps (post_heartbeat pod_id body) = register-Keeps pod_id (sv.pod_from_value body)
    route-Keeps get_cache = λ s. frame.stays s
    route-Keeps (post_flush body) = flush_handler-Keeps body
    route-Keeps (delete_entry hash body) = flush_handler-Keeps body
    route-Keeps get_stats =
        answer-Keeps _ (λ pods. cluster w hashes serde sv (get_or pods [])) list_pods-Keeps
    route-Keeps get_metrics = λ s. frame.stays s
    route-Keeps get_healthz = λ s. frame.stays s

    route_all-Keeps : (rs : List Request) → Keeps (Same w j) (route_all w hashes serde sv rs)
    unfolding route_all
    route_all-Keeps [] = λ s. frame.stays s
    route_all-Keeps (r ∷ rs) =
        bind-Keeps _ frame _ _ (route-Keeps r)
          λ a. bind-Keeps _ frame _ _ (route_all-Keeps rs) λ rest s. frame.stays s

  -- No requests to the administration API, the flushes and the deletions of an entry among them,
  -- change the stored entry of a prefix, its time to live, or its lock, in whatever order they come
  -- and however they end, as long as commands leave the keys that they do not name alone.
  pub route_all-Same :
      (h : Text) (rs : List Request) (s : w.Store)
      → Same w (cache_key h) s (route_all w hashes serde sv rs s).1
        × Same w (lock_key h) s (route_all w hashes serde sv rs s).1
  route_all-Same h rs s = (
    route_all-Keeps (cache_key h) (cache_key-IsApart h) rs s,
    route_all-Keeps (lock_key h) (lock_key-IsApart h) rs s,
  )
