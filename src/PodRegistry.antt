-- ===== src/PodRegistry.antt =====
-- control-plane/src/pod_registry.rs: the GPU pods, their loads and their heartbeats in Redis.
-- The endless health check is its one round.
pub mod Heartbeat
pub mod Checks
pub mod Roster
pub mod Keys
pub mod Order
pub mod Least
pub mod Reported
pub mod Sample
pub mod Tests
use ghostcacher.Prelude.{
  ℕ, ◌*◌, ◌%◌, Bool, true, false, ◌||◌, ◌&&◌, Option, none, some, List, [], ◌∷◌, ◌++◌, ltb, length,
  if◌then◌else◌,
}
use ghostcacher.Prelude.Int.{ℤ, pos, as_i64, sub_i64, ltb_ℤ}
use ghostcacher.Prelude.Sort.{sort}
use ghostcacher.Text.{Text, lit}
use ghostcacher.F32.{F32, is_nan, f32_le}
use ghostcacher.Exec.{Exec, ok, serde_error, ◌>>=◌, ◌>>◌, pure, lift, attempt, or_panic}
use ghostcacher.World.{World}
use ghostcacher.Hashes.{Hashes}

abbrev pub heartbeat_ttl_secs : ℕ
heartbeat_ttl_secs = 45

abbrev pub health_check_interval_secs : ℕ
health_check_interval_secs = 15

pub data PodStatus : Type 0 where
  warm active idle draining : PodStatus

pub record PodInfo : Type 0 where
  pub pod_id : Text
  pub pod_ip : Text
  pub node_name : Text
  pub hbm_util : F32
  pub dram_util : F32
  pub kv_block_count : ℕ
  pub inference_engine : Text
  pub last_heartbeat : ℤ
  pub status : PodStatus

-- What `serde_json` does with a pod, and how `redis` writes a load and a time.
pub record PodSerde : Type 0 where
  pub to_string : PodInfo → Option Text
  pub from_str : Text → Option PodInfo
  pub write_f32 : F32 → Text
  pub write_i64 : ℤ → Text

abbrev pub registry : Text
registry = lit "pod_registry"

unfoldable pub load_key : Text → Text
load_key pod_id = lit "pod_load:" ++ pod_id

unfoldable pub heartbeat_key : Text → Text
heartbeat_key pod_id = lit "pod_heartbeat:" ++ pod_id

abbrev pub by_hbm : PodInfo → PodInfo → Bool
by_hbm a b = f32_le a.hbm_util b.hbm_util

unfoldable pub any_nan_pod : List PodInfo → Bool
any_nan_pod [] = false
any_nan_pod (p ∷ pods) = is_nan p.hbm_util || any_nan_pod pods

-- `sort_by` with `partial_cmp(..).unwrap()`.
unfoldable pub sort_pods : List PodInfo → Option (List PodInfo)
unfolding any_nan_pod
sort_pods pods = if ltb 1 (length pods) && any_nan_pod pods then none else some (sort by_hbm pods)

abbrev pub first_pod : List PodInfo → Option PodInfo
first_pod [] = none
first_pod (p ∷ pods) = some p

-- `now - info.last_heartbeat > HEARTBEAT_TTL_SECS`
unfoldable pub is_dead : ℤ → PodInfo → Bool
is_dead now info = ltb_ℤ (pos heartbeat_ttl_secs) (sub_i64 now info.last_heartbeat)

module _ (w : World) (hashes : Hashes w) (serde : PodSerde) where
  unfoldable pub upsert_pod : PodInfo → Exec w.Store (Unit {0})
  upsert_pod info = do
    w.conn
    json ← lift serde_error (serde.to_string info)
    hashes.hset registry info.pod_id json
    w.set_ex (load_key info.pod_id) (serde.write_f32 info.hbm_util) heartbeat_ttl_secs
    now ← (λ s. (ok (w.unix_now s), s))
    w.set_ex (heartbeat_key info.pod_id) (serde.write_i64 (as_i64 now)) heartbeat_ttl_secs

  -- `filter_map(|(_, v)| from_str(&v).ok())`
  unfoldable pub decode_pods : List (Text × Text) → List PodInfo
  decode_pods [] = []
  decode_pods ((pod_id, v) ∷ all) =
      let rest = decode_pods all in elim (serde.from_str v) [ none ↦ rest | some p ↦ p ∷ rest ]

  unfoldable pub list_pods : Exec w.Store (List PodInfo)
  unfolding decode_pods sort_pods
  list_pods = do w.conn; all ← hashes.hgetall registry; or_panic (sort_pods (decode_pods all))

  unfoldable pub least_loaded_pod : Exec w.Store (Option PodInfo)
  unfolding list_pods
  least_loaded_pod = do pods ← list_pods; pure (first_pod pods)

  unfoldable pub remove_pod : Text → Exec w.Store (Unit {0})
  remove_pod pod_id = do
    w.conn
    hashes.hdel registry pod_id
    w.del (load_key pod_id)
    w.del (heartbeat_key pod_id)

  -- What the loop does with one entry of the hash.
  unfoldable pub evict_if_dead : ℤ → Text → Option PodInfo → Exec w.Store (Unit {0})
  unfolding remove_pod is_dead
  evict_if_dead now pod_id none = pure tt
  evict_if_dead now pod_id (some info) = if is_dead now info then remove_pod pod_id else pure tt

  unfoldable pub evict_all : ℤ → List (Text × Text) → Exec w.Store (Unit {0})
  unfolding evict_if_dead
  evict_all now [] = pure tt
  evict_all now ((pod_id, json) ∷ all) = do
    evict_if_dead now pod_id (serde.from_str json)
    evict_all now all

  unfoldable pub evict_dead_pods : Exec w.Store (Unit {0})
  unfolding evict_all
  evict_dead_pods = do
    w.conn
    all ← hashes.hgetall registry
    now ← (λ s. (ok (as_i64 (w.unix_now s)), s))
    evict_all now all

  unfoldable pub health_check_round : Exec w.Store (Unit {0})
  unfolding evict_dead_pods
  health_check_round = do
    (λ s. (ok tt, w.sleep (health_check_interval_secs * 1000) s))
    attempt evict_dead_pods
    pure tt
