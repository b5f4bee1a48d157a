-- ===== src/ControlPlane/Background/Untouched.antt =====
-- The keys of the affinity map and of the locks under all that the control plane does.
use ghostcacher.Prelude.{Option, none, some, List, [], ◌∷◌, ◌==◌, Bool-cases, inl, inr}
use ghostcacher.Text.{Text}
use ghostcacher.Prelude.Int.{ℤ}
use ghostcacher.Exec.Frame.{Keeps, IsFrame, bind-Keeps, or_panic-Keeps, attempt-Keeps}
use ghostcacher.Float.{Float}
use ghostcacher.World.{World}
use ghostcacher.World.Confined.{Same, Same-IsFrame, Confined, HashesConfined}
use ghostcacher.Hashes.{Hashes}
use ghostcacher.RedisClient.{cache_key, lock_key}
use ghostcacher.PodRegistry.{
  PodInfo, PodSerde, registry, load_key, heartbeat_key, remove_pod, is_dead, evict_if_dead,
  evict_all, evict_dead_pods,
}
use ghostcacher.ControlPlane.Eviction.{run_eviction_cycle, sort_candidates, evict_count}
use ghostcacher.ControlPlane.Admin.{AdminSerde}
use ghostcacher.ControlPlane.Admin.Isolation.{
  IsApart, cache_key-IsApart, lock_key-IsApart, route-Keeps,
}
use ghostcacher.ControlPlane.Background.{
  Background, eviction_loop, health_check_loop, Act, round, request, background, act, act_all,
}

module _ (fl : Float) (w : World) (hashes : Hashes w) (serde : PodSerde) (sv : AdminSerde)
    (confined : Confined w) (apart_hashes : HashesConfined w hashes) where
  module _ (j : Text) (apart : IsApart j) where
    frame : IsFrame (Same w j)
    frame = Same-IsFrame w j

    remove_pod-Keeps : (pod_id : Text) → Keeps (Same w j) (remove_pod w hashes serde pod_id)
    unfolding remove_pod
    remove_pod-Keeps pod_id = bind-Keeps _ frame _ _ (confined.conn_confined j) λ u.
        bind-Keeps _ frame _ _ (apart_hashes.hdel_confined registry pod_id j) λ v.
          bind-Keeps _ frame _ _
            (confined.del_confined (load_key pod_id) j (apart.from_load pod_id))
            λ x. confined.del_confined (heartbeat_key pod_id) j (apart.from_heartbeat pod_id)

    evict_if_dead-Keeps :
        (now : ℤ) (pod_id : Text) (o : Option PodInfo)
        → Keeps (Same w j) (evict_if_dead w hashes serde now pod_id o)
    unfolding evict_if_dead
    evict_if_dead-Keeps now pod_id none = λ s. frame.stays s
    evict_if_dead-Keeps now pod_id (some info) = elim (Bool-cases (is_dead now info)) [
      | inl dead ↦ rw dead (remove_pod-Keeps pod_id)
      | inr alive ↦ rw alive (λ s. frame.stays s)
    ]

    evict_all-Keeps :
        (now : ℤ) (all : List (Text × Text)) → Keeps (Same w j) (evict_all w hashes serde now all)
    unfolding evict_all
    evict_all-Keeps now [] = λ s. frame.stays s
    evict_all-Keeps now ((pod_id, json) ∷ all) =
        bind-Keeps _ frame _ _ (evict_if_dead-Keeps now pod_id (serde.from_str json))
          λ u. evict_all-Keeps now all

    evict_dead_pods-Keeps : Keeps (Same w j) (evict_dead_pods w hashes serde)
    unfolding evict_dead_pods
    evict_dead_pods-Keeps = bind-Keeps _ frame _ _ (confined.conn_confined j) λ u.
        bind-Keeps _ frame _ _ (apart_hashes.hgetall_confined registry j)
          λ all. bind-Keeps _ frame _ _ (λ s. frame.stays s) λ now. evict_all-Keeps now all

    run_eviction_cycle-Keeps : Keeps (Same w j) (run_eviction_cycle fl w)
    unfolding run_eviction_cycle
    run_eviction_cycle-Keeps =
        bind-Keeps _ frame _ _ (or_panic-Keeps _ frame (sort_candidates fl [])) λ candidates.
          elim (Bool-cases (evict_count fl candidates == 0)) [
            | inl within ↦ rw within (λ s. frame.stays s)
            | inr beyond ↦ rw beyond (λ s. frame.stays s)
          ]

    background-Keeps : (b : Background) → Keeps (Same w j) (background fl w hashes serde sv b)
    unfolding background
    background-Keeps eviction_loop =
        bind-Keeps _ frame _ _ (attempt-Keeps _ frame _ run_eviction_cycle-Keeps)
          λ o s. frame.stays s
    background-Keeps health_check_loop =
        bind-Keeps _ frame _ _ (attempt-Keeps _ frame _ evict_dead_pods-Keeps) λ o s. frame.stays s

    act-Keeps : (a : Act) → Keeps (Same w j) (act fl w hashes serde sv a)
    unfolding act
    act-Keeps (round b) = bind-Keeps _ frame _ _ (background-Keeps b) λ u s. frame.stays s
    act-Keeps (request r) =
        bind-Keeps _ frame _ _ (route-Keeps w hashes serde sv confined apart_hashes j apart r)
          λ answer s. frame.stays s

    act_all-Keeps : (acts : List Act) → Keeps (Same w j) (act_all fl w hashes serde sv acts)
    unfolding act_all
    act_all-Keeps [] = λ s. frame.stays s
    act_all-Keeps (a ∷ acts) =
        bind-Keeps _ frame _ _ (act-Keeps a)
          λ answer. bind-Keeps _ frame _ _ (act_all-Keeps acts) λ answers s. frame.stays s

  -- Rounds of the eviction loop, rounds of the health check and requests to the administration API,
  -- flushes and deletions among them, in any order and however they end, change neither the stored
  -- entry of a prefix, nor its time to live, nor its lock, as long as commands leave the keys that
  -- they do not name alone: nothing that the control plane runs ever evicts an entry.
  pub act_all-Same :
      (h : Text) (acts : List Act) (s : w.Store)
      → Same w (cache_key h) s (act_all fl w hashes serde sv acts s).1
        × Same w (lock_key h) s (act_all fl w hashes serde sv acts s).1
  act_all-Same h acts s = (
    act_all-Keeps (cache_key h) (cache_key-IsApart h) acts s,
    act_all-Keeps (lock_key h) (lock_key-IsApart h) acts s,
  )
