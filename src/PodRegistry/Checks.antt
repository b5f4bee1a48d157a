-- ===== src/PodRegistry/Checks.antt =====
-- A health check as a whole, on the entries of the registry.
use ghostcacher.Prelude.{
  ◌≡◌, refl, sym, subst, ap, ◌∙◌, Bool, true, false, Option, none, some, List, [], ◌∷◌, ◌++◌, inl,
  inr, Bool-cases, Option-cases, if◌then◌else◌,
}
use ghostcacher.Prelude.Int.{ℤ, as_i64}
use ghostcacher.Text.{Text, text_eq}
use ghostcacher.Text.Laws.{text_eq_iff}
use ghostcacher.Exec.{ok, bind-cases, pure-cases}
use ghostcacher.World.{World}
use ghostcacher.Hashes.{Hashes, Sound}
use ghostcacher.PodRegistry.{PodInfo, PodSerde, registry, is_dead, evict_all, evict_dead_pods}
use ghostcacher.PodRegistry.Keys.{Alive, Fresh, evict_all_keeps, evict_all_removes, evict_all-none}

module _ (w : World) (hashes : Hashes w) (serde : PodSerde) where
  open w use {Store}
  open hashes use {field}

  -- Whether an entry, as it was read, is one to evict.
  abbrev pub read_dead : ℤ → Option PodInfo → Bool
  read_dead now none = false
  read_dead now (some info) = is_dead now info

  -- What a health check at a time leaves of an entry.
  abbrev pub survivor : ℤ → Option Text → Option Text
  survivor now none = none
  survivor now (some json) = if read_dead now (serde.from_str json) then none else some json

  read_dead-Fresh : (now : ℤ) (o : Option PodInfo) → read_dead now o ≡ false → Fresh now o
  read_dead-Fresh now none e = tt
  read_dead-Fresh now (some info) e = e

  read_dead-some :
      (now : ℤ) (o : Option PodInfo)
      → read_dead now o ≡ true
      → (info : PodInfo) × (o ≡ some info) × (is_dead now info ≡ true)
  read_dead-some now none e = cc
  read_dead-some now (some info) e = (info, refl, e)

  same_json :
      (value : Text → Option Text) (pod id : Text) {json j : Text}
      → value pod ≡ some json
      → value id ≡ some j
      → id ≡ pod
      → json ≡ j
  same_json value pod id has here same = cc (has, here, same)

  -- In a listing of the registry, a pod whose entry is not one to evict is alive.
  Sound-Alive :
      (now : ℤ) (pod json : Text) (value : Text → Option Text) (all : List (Text × Text))
      → value pod ≡ some json
      → read_dead now (serde.from_str json) ≡ false
      → Sound value all
      → Alive w hashes serde now pod all
  Sound-Alive now pod json value [] has fresh sound = tt
  Sound-Alive now pod json value ((id, j) ∷ all) has fresh (here, rest) = (
    elim (Bool-cases (text_eq id pod)) [
      | inr ne ↦ inl ne
      | inl same ↦ inr (
          subst (λ x. Fresh now (serde.from_str x))
            (same_json value pod id has here ((text_eq_iff id pod).0 same))
            (read_dead-Fresh now (serde.from_str json) fresh))
    ],
    Sound-Alive now pod json value all has fresh rest,
  )

  -- Where a pair stands in a listing.
  abbrev Complete : (Text → Option Text) → List (Text × Text) → Type 0
  Complete value all =
      (pod v : Text)
      → value pod ≡ some v
      → (earlier : List (Text × Text)) × (later : List (Text × Text)) × (all
          ≡ earlier ++ ((pod, v) ∷ later))

  evict_all-stored :
      (now : ℤ) (all : List (Text × Text)) (pod json : Text) (s : Store) {t : Store}
      → Sound (field s registry) all
      → Complete (field s registry) all
      → field s registry pod ≡ some json
      → evict_all w hashes serde now all s ≡ (ok tt, t)
      → field t registry pod ≡ survivor now (some json)
  evict_all-stored now all pod json s sound complete has h =
      elim (Bool-cases (read_dead now (serde.from_str json))) [
        | inr fresh ↦
            evict_all_keeps w hashes serde now all pod s
              (Sound-Alive now pod json (field s registry) all has fresh sound) h
            ∙ has
            ∙ rw fresh refl
        | inl dead ↦
            let (info, parsed, old) = read_dead-some now (serde.from_str json) dead in
            let (earlier, later, split) = complete pod json has in
            evict_all_removes w hashes serde now earlier pod json later info s parsed old
              (ap (λ l. evict_all w hashes serde now l s) (sym split) ∙ h)
            ∙ rw dead refl
      ]

  evict_all-survivor :
      (now : ℤ) (all : List (Text × Text)) (pod : Text) (s : Store) {t : Store}
      → Sound (field s registry) all
      → Complete (field s registry) all
      → evict_all w hashes serde now all s ≡ (ok tt, t)
      → field t registry pod ≡ survivor now (field s registry pod)
  evict_all-survivor now all pod s sound complete h = elim (Option-cases (field s registry pod)) [
    | inl gone ↦ evict_all-none w hashes serde now all pod s gone h ∙ ap (survivor now) (sym gone)
    | inr (json, has) ↦
        evict_all-stored now all pod json s sound complete has h ∙ ap (survivor now) (sym has)
  ]

  -- The time that a health check reads, once it has connected and listed the registry.
  abbrev pub ReadAt : Store → ℤ → Type 0
  ReadAt s now =
      (u : Store) × (v : Store) × (all : List (Text × Text)) × (w.conn s ≡ (ok tt, u))
      × (hashes.hgetall registry u ≡ (ok all, v))
      × (now ≡ as_i64 (w.unix_now v))

  -- A health check that ends with no error is a filter on the registry, at the time that it reads
  -- after the listing: of each pod,
  -- listed or not, the entry is gone if it can be read and has a heartbeat that is too old, and is
  -- what it was otherwise.
  pub evict_dead_pods-survivor :
      (s : Store) {t : Store}
      → evict_dead_pods w hashes serde s ≡ (ok tt, t)
      → (now : ℤ) × ReadAt s now
        × ((pod : Text) → field t registry pod ≡ survivor now (field s registry pod))
  unfolding evict_dead_pods
  evict_dead_pods-survivor s h = bind-cases _ _ _ h λ u s1 e1 h1.
      bind-cases _ _ _ h1 λ all s2 e2 h2. bind-cases _ _ _ h2 λ now s3 e3 h3.
        pure-cases e3 λ clock at.
          let same : field s3 ≡ field s1 = ap field at ∙ (hashes.hgetall_ok registry e2).1 in
          (
            now,
            (s1, s2, all, e1, e2, clock),
            λ pod.
                evict_all-survivor now all pod s3
                  (subst (λ f. Sound (f registry) all) (sym same) (hashes.hgetall_ok registry e2).0)
                  (subst (λ f. Complete (f registry) all) (sym same)
                    (λ id v has. hashes.hgetall_complete registry id v e2 has))
                  h3
                ∙ ap (λ f. survivor now (f registry pod)) (same ∙ hashes.conn_keeps e1),
          )
