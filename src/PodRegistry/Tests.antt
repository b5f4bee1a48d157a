-- ===== src/PodRegistry/Tests.antt =====
-- Instances of the theorems on the registry, at a server in memory.
use ghostcacher.Prelude.{
  ℕ, ◌≡◌, refl, ◌⊎◌, inl, inr, some, none, List, [], ◌∷◌, ◌++◌, Option, Bool, true, false,
  if◌then◌else◌,
}
use ghostcacher.Prelude.Sort.{IsSorted}
use ghostcacher.Prelude.Int.{ℤ, pos, as_i64}
use ghostcacher.Text.{Text, lit, text_eq}
use ghostcacher.Exec.{ok}
use ghostcacher.World.Memory.{Memory, memory, empty, memory_confined}
use ghostcacher.PodRegistry.{
  registry, load_key, heartbeat_key, upsert_pod, list_pods, remove_pod, evict_all, evict_dead_pods,
  by_hbm, decode_pods,
}
use ghostcacher.PodRegistry.Sample.{stored, pod, terse}
use ghostcacher.PodRegistry.{is_dead}
use ghostcacher.Prelude.{arith, ltb}
use ghostcacher.PodRegistry.Checks.{ReadAt, survivor, evict_dead_pods-survivor}
use ghostcacher.PodRegistry.Roster.{
  Event, heartbeat, removal, check, happened_all, carry_out_all, carry_out_all-happened_all,
}
use ghostcacher.F32.{f32_le}
use ghostcacher.PodRegistry.{PodInfo}
use ghostcacher.Serde.Sample.{plain}
use ghostcacher.PodRegistry.Reported.{Listed, upsert_pod-list_pod_loads}
use ghostcacher.PodRegistry.Least.{Registered, least_loaded_pod-Least}

-- How a pod with no heartbeat since the start of time is written.
abbrev old_json : Text
old_json = 9 ∷ 0 ∷ lit "old"

abbrev new_json : Text
new_json = 5 ∷ 990 ∷ lit "new"

abbrev pairs : List (Text × Text)
pairs = (lit "old", old_json) ∷ (lit "new", new_json) ∷ []

abbrev start : Memory
start = record (empty 1000) { fields = λ h. pairs }

abbrev upserted : Memory
upserted = (upsert_pod memory stored terse (pod (lit "old") 9 0) start).1

abbrev removed : Memory
removed = (remove_pod memory stored terse (lit "old") start).1

abbrev checked : Memory
checked = (evict_all memory stored terse (pos 1000) pairs start).1

abbrev swept : Memory
swept = (evict_dead_pods memory stored terse start).1

evict_dead_pods-survivor_example :
    (now : ℤ) × ReadAt memory stored terse start now
    × ((id : Text)
        → stored.field swept registry id
          ≡ survivor memory stored terse now (stored.field start registry id))
unfolding evict_dead_pods ghostcacher.Exec.◌>>=◌ ghostcacher.PodRegistry.Sample.Fields.listing
    ghostcacher.Prelude.Int.sub_i64 text_eq
evict_dead_pods-survivor_example =
    evict_dead_pods-survivor memory stored terse start {t = swept} refl

abbrev events : List Event
events = heartbeat (pod (lit "new") 7 1000) ∷ check ∷ removal (lit "new") ∷ []

abbrev lived : Memory
lived = (carry_out_all memory stored terse events start).1

carry_out_all-happened_all_example :
    (nows : List ℤ) × (stored.field lived registry
      ≡ happened_all memory stored terse nows events (stored.field start registry))
unfolding ghostcacher.Exec.◌>>=◌ upsert_pod evict_dead_pods
    ghostcacher.PodRegistry.Sample.Fields.listing text_eq ghostcacher.Prelude.Int.sub_i64
carry_out_all-happened_all_example =
    carry_out_all-happened_all memory stored terse events start {t = lived} refl

least_loaded_pod-Least_example :
    (p : PodInfo) × (some (pod (lit "new") 5 990) ≡ some p)
    × Registered memory stored terse start p
    × (f32_le p.hbm_util 9 ≡ true)
unfolding ghostcacher.PodRegistry.Sample.Fields.value_in text_eq
    ghostcacher.PodRegistry.least_loaded_pod ghostcacher.Exec.◌>>=◌
    ghostcacher.PodRegistry.Sample.Fields.listing ghostcacher.F32.is_nan
    ghostcacher.Prelude.Sort.sort f32_le
least_loaded_pod-Least_example =
    least_loaded_pod-Least memory stored terse start (lit "old") old_json (pod (lit "old") 9 0)
      {t = start} refl refl refl

-- Both pods have sent a heartbeat, and a sidecar lists the loads.
abbrev reported : Memory
reported = (upsert_pod memory stored terse (pod (lit "new") 5 990) upserted).1

upsert_pod-list_pod_loads_example :
    Listed memory stored terse plain memory_confined
      (lit "new")
      5
      ((lit "new", 5) ∷ (lit "old", 9) ∷ [])
unfolding upsert_pod ghostcacher.Exec.◌>>=◌ ghostcacher.Prelude.filter ghostcacher.Text.starts_with
    heartbeat_key load_key ghostcacher.RedisClient.list_pod_loads
    ghostcacher.RedisClient.load_or_half ghostcacher.World.put text_eq ghostcacher.F32.is_nan
    ghostcacher.Prelude.Sort.sort f32_le ghostcacher.RedisClient.pod_id_of
    ghostcacher.Text.strip_prefix
upsert_pod-list_pod_loads_example =
    upsert_pod-list_pod_loads memory stored terse plain memory_confined (pod (lit "new") 5 990)
      upserted [] (load_key (lit "old") ∷ []) {t = reported} {a = reported} {b = reported}
      {u = reported} refl refl refl (λ s has. (_, _, refl)) refl refl
