-- ===== src/RedisClient/Loads.antt =====
-- The pod loads, least loaded first.
use mathlib.Core.List.{Perm}
use ghostcacher.Prelude.{
  ◌<◌, ◌≡◌, refl, ◌⊎◌, subst, Bool, true, false, ◌&&◌, Option, none, some, List, length, arith, ltb,
  Bool-cases, inl, inr,
}
use ghostcacher.Prelude.Sort.{sort, sort-perm, sort-IsSorted, IsSorted, IsTotal}
use ghostcacher.Text.{Text}
use ghostcacher.F32.{F32, f32_le, f32_le-IsTotal}
use ghostcacher.Exec.{ok, bind-cases}
use ghostcacher.Serde.{Serde}
use ghostcacher.World.{World}
use ghostcacher.RedisClient.{any_nan, sort_loads, or_panic, list_pod_loads}

abbrev pub by_load : Text × F32 → Text × F32 → Bool
by_load a b = f32_le a.1 b.1

pub by_load-IsTotal : IsTotal by_load
by_load-IsTotal = record { total = λ a b h. f32_le-IsTotal.total a.1 b.1 h }

-- Sorting gives the same loads in ascending order, or it panics, which it does exactly when a NaN
-- is among two loads or more.
pub sort_loads_ok :
    (loads : List (Text × F32))
    → ((sort_loads loads ≡ none) × (1 < length loads) × (any_nan loads ≡ true))
      ⊎ ((sorted : List (Text × F32)) × (sort_loads loads ≡ some sorted)
          × IsSorted by_load sorted
          × Perm sorted loads
          × ((length loads < 2) ⊎ (any_nan loads ≡ false)))
unfolding sort_loads
sort_loads_ok loads = elim (Bool-cases (ltb 1 (length loads) && any_nan loads)) [
  | inl e ↦ inl (rw e refl, ground arith, ground arith)
  | inr e ↦ inr (
    sort by_load loads,
    rw e refl,
    sort-IsSorted by_load by_load-IsTotal loads,
    sort-perm by_load loads,
    ground arith,
  )
]

or_panic-eq-ok :
    {S A : Type 0} (o : Option A) (s : S) {a : A} {t : S} → or_panic o s ≡ (ok a, t) → o ≡ some a
or_panic-eq-ok none s e = cc
or_panic-eq-ok (some x) s e = ground (arith, e)

pub sort_loads-some :
    (found : List (Text × F32)) {sorted : List (Text × F32)}
    → sort_loads found ≡ some sorted
    → sort by_load found ≡ sorted
unfolding sort_loads
sort_loads-some found e = elim (Bool-cases (ltb 1 (length found) && any_nan found)) [
  | inl t ↦ absurd (ground (arith, e, t))
  | inr f ↦ ground (arith, e, f)
]

sort_loads-IsSorted :
    (found sorted : List (Text × F32)) → sort_loads found ≡ some sorted → IsSorted by_load sorted
unfolding sort_loads
sort_loads-IsSorted found sorted e =
    subst (IsSorted by_load) (sort_loads-some found e) (sort-IsSorted by_load by_load-IsTotal found)

module _ (w : World) (serde : Serde) where
  -- A list of loads that is returned is in ascending order of the loads.
  pub list_pod_loads-IsSorted :
      (s : w.Store) {loads : List (Text × F32)} {t : w.Store}
      → list_pod_loads w serde s ≡ (ok loads, t)
      → IsSorted by_load loads
  unfolding list_pod_loads
  list_pod_loads-IsSorted s e = bind-cases _ _ _ e λ u s1 e1 h1.
      bind-cases _ _ _ h1 λ keys s2 e2 h2.
        bind-cases _ _ _ h2
          λ found s3 e3 h3. sort_loads-IsSorted found _ (or_panic-eq-ok (sort_loads found) s3 h3)
