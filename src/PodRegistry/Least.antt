-- ===== src/PodRegistry/Least.antt =====
-- The least loaded pod.
use ghostcacher.Prelude.{
  ◌≡◌, refl, sym, subst, ap, ◌∙◌, true, Option, none, some, List, [], ◌∷◌, ◌++◌, All, arith,
}
use mathlib.Core.Option.{some-injective}
use ghostcacher.Prelude.Sort.{sort-All, All-sort, sort-IsSorted, IsSorted, IsSorted-least}
use ghostcacher.F32.{F32, f32_le}
use ghostcacher.Text.{Text}
use ghostcacher.Exec.{ok, bind-cases, or_panic-cases, pure-cases}
use ghostcacher.World.{World}
use ghostcacher.Hashes.{Hashes, Sound}
use ghostcacher.PodRegistry.{
  PodInfo, PodSerde, registry, by_hbm, first_pod, decode_pods, list_pods, least_loaded_pod,
}
use ghostcacher.PodRegistry.Order.{by_hbm-IsTotal, sort_pods-some}

pub f32_le_refl : (a : F32) → f32_le a a ≡ true
unfolding f32_le
f32_le_refl a = ground arith

pub f32_le_trans : (a b c : F32) → f32_le a b ≡ true → f32_le b c ≡ true → f32_le a c ≡ true
unfolding f32_le
f32_le_trans a b c h k = ground (arith, h, k)

module _ (w : World) (hashes : Hashes w) (serde : PodSerde) where
  open w use {Store}
  open hashes use {field}

  -- A pod that the registry has an entry of that can be read.
  abbrev pub Registered : Store → PodInfo → Type 0
  Registered s p =
      (id : Text) × (json : Text) × (field s registry id ≡ some json)
      × (serde.from_str json ≡ some p)

  decode_one :
      (P : PodInfo → Type 0) (v : Text) (all : List (Text × Text)) (o : Option PodInfo)
      → ((p : PodInfo) → o ≡ some p → P p)
      → All P (decode_pods w hashes serde all)
      → All P (elim o [
        | none ↦ decode_pods w hashes serde all
        | some p ↦ p ∷ decode_pods w hashes serde all
      ])
  decode_one P v all none h k = k
  decode_one P v all (some p) h k = (h p refl, k)

  -- What a listing of the registry gives is registered.
  decode_pods-Registered :
      (s : Store) (all : List (Text × Text))
      → Sound (field s registry) all
      → All (Registered s) (decode_pods w hashes serde all)
  unfolding decode_pods
  decode_pods-Registered s [] sound = tt
  decode_pods-Registered s ((id, json) ∷ all) (here, rest) =
      decode_one (Registered s) json all (serde.from_str json) (λ p e. (id, json, here, e))
        (decode_pods-Registered s all rest)

  decode_split :
      (P : PodInfo → Type 0) (o : Option PodInfo) (pods : List PodInfo)
      → All P (elim o [ none ↦ pods | some p ↦ p ∷ pods ])
      → All P pods × ((p : PodInfo) → o ≡ some p → P p)
  decode_split P none pods all = (all, λ p e. absurd (cc e))
  decode_split P (some q) pods (here, rest) = (rest, λ p e. subst P (some-injective _ _ e) here)

  -- What holds of the pods of a listing holds of the one of each of its entries.
  decode_pods-All :
      (P : PodInfo → Type 0) (earlier : List (Text × Text)) (id json : Text)
      (later : List (Text × Text)) (p : PodInfo)
      → serde.from_str json ≡ some p
      → All P (decode_pods w hashes serde (earlier ++ ((id, json) ∷ later)))
      → P p
  unfolding decode_pods
  decode_pods-All P [] id json later p e all =
      (decode_split P (serde.from_str json) (decode_pods w hashes serde later) all).1 p e
  decode_pods-All P ((i, j) ∷ earlier) id json later p e all =
      decode_pods-All P earlier id json later p e
        (decode_split P (serde.from_str j)
          (decode_pods w hashes serde (earlier ++ ((id, json) ∷ later))) all).0

  -- A listing is sorted, each of its pods is registered, and what holds of all of them holds of
  -- each pod that is registered.
  list_pods-Registered :
      (s : Store) {pods : List PodInfo} {t : Store}
      → list_pods w hashes serde s ≡ (ok pods, t)
      → IsSorted by_hbm pods
        × All (Registered s) pods
        × ((P : PodInfo → Type 0) → All P pods → (p : PodInfo) → Registered s p → P p)
  unfolding list_pods
  list_pods-Registered s h = bind-cases _ _ _ h λ x s1 e1 h1. bind-cases _ _ _ h1 λ all s2 e2 h2.
      or_panic-cases _ h2 λ sorted at.
        let decoded = decode_pods w hashes serde all in
        let same = sort_pods-some decoded sorted in
        let sound =
          subst (λ f. Sound (f registry) all) (hashes.conn_keeps e1)
            (hashes.hgetall_ok registry e2).0 in
        (
          subst (IsSorted by_hbm) same (sort-IsSorted by_hbm by_hbm-IsTotal decoded),
          subst (All (Registered s)) same
              (All-sort by_hbm (Registered s) decoded (decode_pods-Registered s all sound)),
          λ P holds p (id, json, has, parsed).
              let (earlier, later, split) =
                hashes.hgetall_complete registry id json e2
                  (ap (λ f. f registry id) (hashes.conn_keeps e1) ∙ has) in
              decode_pods-All P earlier id json later p parsed (
                subst (λ l. All P (decode_pods w hashes serde l)) split
                  (sort-All by_hbm P decoded (subst (All P) (sym same) holds))),
        )

  -- No pod that can be read is in the registry, or the pod is one that is and that has the least
  -- HBM utilization.
  abbrev pub Least : Store → Option PodInfo → Type 0
  Least s none = (p : PodInfo) → Registered s p → ⊥
  Least s (some p) =
      Registered s p × ((q : PodInfo) → Registered s q → f32_le p.hbm_util q.hbm_util ≡ true)

  first_pod-Least :
      (s : Store) (pods : List PodInfo)
      → IsSorted by_hbm pods
      → All (Registered s) pods
      → ((P : PodInfo → Type 0) → All P pods → (p : PodInfo) → Registered s p → P p)
      → Least s (first_pod pods)
  first_pod-Least s [] sorted known complete = complete (λ p. ⊥) tt
  first_pod-Least s (p ∷ pods) sorted (here, rest) complete = (
    here,
    complete (λ q. f32_le p.hbm_util q.hbm_util ≡ true)
        (
          f32_le_refl p.hbm_util,
          IsSorted-least by_hbm (λ a b c. f32_le_trans a.hbm_util b.hbm_util c.hbm_util) p pods
              sorted,
        ),
  )

  Least-some :
      (s : Store) (o : Option PodInfo) (q : PodInfo)
      → Least s o
      → Registered s q
      → (p : PodInfo) × (o ≡ some p) × Registered s p × (f32_le p.hbm_util q.hbm_util ≡ true)
  Least-some s none q least known = absurd (least q known)
  Least-some s (some p) q (here, least) known = (p, refl, here, least q known)

  -- Where the registry has an entry that can be read as a pod, the least loaded pod, if it is asked
  -- for with no error, is there, is read from an entry of the registry, and has at most the HBM
  -- utilization of that pod.
  pub least_loaded_pod-Least :
      (s : Store) (id json : Text) (q : PodInfo) {o : Option PodInfo} {t : Store}
      → field s registry id ≡ some json
      → serde.from_str json ≡ some q
      → least_loaded_pod w hashes serde s ≡ (ok o, t)
      → (p : PodInfo) × (o ≡ some p) × Registered s p × (f32_le p.hbm_util q.hbm_util ≡ true)
  unfolding least_loaded_pod
  least_loaded_pod-Least s id json q has parsed h = bind-cases _ _ _ h λ pods s1 e1 h1.
      pure-cases h1 λ returned at.
        let (sorted, known, complete) = list_pods-Registered s e1 in
        Least-some s _ q
          (subst (Least s) (sym returned) (first_pod-Least s pods sorted known complete))
          (id, json, has, parsed)
