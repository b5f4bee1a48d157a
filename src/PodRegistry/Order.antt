-- ===== src/PodRegistry/Order.antt =====
-- The order in which the registry lists its pods.
use mathlib.Core.List.{Perm}
use ghostcacher.Prelude.{◌≡◌, subst, ◌&&◌, some, List, length, arith, ltb, Bool-cases, inl, inr}
use ghostcacher.Prelude.Sort.{sort, sort-perm, sort-IsSorted, IsSorted, IsTotal}
use ghostcacher.F32.{f32_le-IsTotal}
use ghostcacher.Text.{Text}
use ghostcacher.Exec.{ok, bind-cases, or_panic-cases}
use ghostcacher.World.{World}
use ghostcacher.Hashes.{Hashes}
use ghostcacher.PodRegistry.{
  PodInfo, PodSerde, registry, by_hbm, any_nan_pod, sort_pods, decode_pods, list_pods,
}

pub by_hbm-IsTotal : IsTotal by_hbm
by_hbm-IsTotal = record { total = λ a b h. f32_le-IsTotal.total a.hbm_util b.hbm_util h }

pub sort_pods-some :
    (pods : List PodInfo) {sorted : List PodInfo}
    → sort_pods pods ≡ some sorted
    → sort by_hbm pods ≡ sorted
unfolding sort_pods
sort_pods-some pods e = elim (Bool-cases (ltb 1 (length pods) && any_nan_pod pods)) [
  | inl t ↦ absurd (ground (arith, e, t))
  | inr f ↦ ground (arith, e, f)
]

module _ (w : World) (hashes : Hashes w) (serde : PodSerde) where
  -- The pods that are listed are those of the registry's entries that can be read, in ascending
  -- order of their HBM utilization.
  pub list_pods_ok :
      (s : w.Store) {pods : List PodInfo} {t : w.Store}
      → list_pods w hashes serde s ≡ (ok pods, t)
      → (all : List (Text × Text)) × (u : w.Store) × (v : w.Store) × (hashes.hgetall registry u
          ≡ (ok all, v))
        × IsSorted by_hbm pods
        × Perm pods (decode_pods w hashes serde all)
  unfolding list_pods
  list_pods_ok s h = bind-cases _ _ _ h λ x s1 e1 h1. bind-cases _ _ _ h1 λ all s2 e2 h2.
      or_panic-cases _ h2 λ sorted at.
        let same = sort_pods-some (decode_pods w hashes serde all) sorted in
        (
          all,
          s1,
          s2,
          e2,
          subst (IsSorted by_hbm) same
              (sort-IsSorted by_hbm by_hbm-IsTotal (decode_pods w hashes serde all)),
          subst (λ l. Perm l (decode_pods w hashes serde all)) same
              (sort-perm by_hbm (decode_pods w hashes serde all)),
        )
