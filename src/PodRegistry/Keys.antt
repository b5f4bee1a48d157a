-- ===== src/PodRegistry/Keys.antt =====
-- Which keys the registry's operations write and remove.
use ghostcacher.Prelude.{
  ℕ, ◌≡◌, ap, ◌∙◌, sym, Option, none, some, List, [], ◌∷◌, ◌++◌, true, false, Bool-cases, ◌⊎◌, inl,
  inr, arith, if◌then◌else◌,
}
use ghostcacher.Prelude.Int.{ℤ, as_i64}
use ghostcacher.Text.{Text, text_eq}
use ghostcacher.Text.Laws.{text_eq_iff}
use ghostcacher.Exec.{ok, pure, bind-cases, lift-cases, pure-cases}
use ghostcacher.World.{World, put, remove}
use ghostcacher.Hashes.{Hashes}
use ghostcacher.PodRegistry.{
  PodInfo, PodSerde, registry, load_key, heartbeat_key, upsert_pod, remove_pod, is_dead,
  evict_if_dead, evict_all,
}

-- An entry that cannot be read, or whose heartbeat is not too old.
abbrev pub Fresh : ℤ → Option PodInfo → Type 0
Fresh now none = Unit
Fresh now (some info) = is_dead now info ≡ false

module _ (w : World) (hashes : Hashes w) (serde : PodSerde) where
  open w use {Store, view}
  open hashes use {field}

  -- A heartbeat that is recorded with no error puts the pod into the registry, its load and the
  -- time under its two keys, both for 45 seconds, and changes no other string key.
  pub upsert_pod_ok :
      (info : PodInfo) (s : Store) {t : Store}
      → upsert_pod w hashes serde info s ≡ (ok tt, t)
      → (json : Text) × (now : ℕ) × (serde.to_string info ≡ some json)
        × (field t registry info.pod_id ≡ some json)
        × (view t
            ≡ put
                (heartbeat_key info.pod_id)
                (serde.write_i64 (as_i64 now))
                (some 45)
                (put (load_key info.pod_id) (serde.write_f32 info.hbm_util) (some 45) (view s)))
  unfolding upsert_pod
  upsert_pod_ok info s h = bind-cases _ _ _ h λ u s1 e1 h1. bind-cases _ _ _ h1 λ json s2 e2 h2.
      bind-cases _ _ _ h2 λ v s3 e3 h3. bind-cases _ _ _ h3 λ x s4 e4 h4.
        bind-cases _ _ _ h4 λ now s5 e5 h5. lift-cases _ _ _ e2 λ encoded at2.
          pure-cases e5 λ clock at5. (
            json,
            now,
            encoded,
            cc (
              hashes.set_ex_keeps (heartbeat_key info.pod_id) (serde.write_i64 (as_i64 now)) 45 h5,
              hashes.set_ex_keeps (load_key info.pod_id) (serde.write_f32 info.hbm_util) 45 e4,
              (hashes.hset_ok registry info.pod_id json e3).0,
            ),
            cc (
              w.set_ex_ok (heartbeat_key info.pod_id) (serde.write_i64 (as_i64 now)) 45 h5,
              w.set_ex_ok (load_key info.pod_id) (serde.write_f32 info.hbm_util) 45 e4,
              (hashes.hset_ok registry info.pod_id json e3).1,
              w.conn_ok e1,
            ),
          )

  -- A pod that is removed with no error is gone from the registry, so are its load and its
  -- heartbeat, and no other string key changes.
  pub remove_pod_ok :
      (pod_id : Text) (s : Store) {t : Store}
      → remove_pod w hashes serde pod_id s ≡ (ok tt, t)
      → (field t registry pod_id ≡ none)
        × (view t ≡ remove (heartbeat_key pod_id) (remove (load_key pod_id) (view s)))
  unfolding remove_pod
  remove_pod_ok pod_id s h = bind-cases _ _ _ h λ u s1 e1 h1. bind-cases _ _ _ h1 λ v s2 e2 h2.
      bind-cases _ _ _ h2 λ x s3 e3 h3. (
        cc (
          hashes.del_keeps (heartbeat_key pod_id) h3,
          hashes.del_keeps (load_key pod_id) e3,
          (hashes.hdel_ok registry pod_id e2).0,
        ),
        cc (
          w.del_ok (heartbeat_key pod_id) h3,
          w.del_ok (load_key pod_id) e3,
          (hashes.hdel_ok registry pod_id e2).1,
          w.conn_ok e1,
        ),
      )

  pub remove_pod_other :
      (pod_id other : Text) (s : Store) {t : Store}
      → remove_pod w hashes serde pod_id s ≡ (ok tt, t)
      → text_eq pod_id other ≡ false
      → field t registry other ≡ field s registry other
  unfolding remove_pod
  remove_pod_other pod_id other s h ne = bind-cases _ _ _ h λ u s1 e1 h1.
      bind-cases _ _ _ h1 λ v s2 e2 h2. bind-cases _ _ _ h2 λ x s3 e3 h3. cc (
        hashes.del_keeps (heartbeat_key pod_id) h3,
        hashes.del_keeps (load_key pod_id) e3,
        hashes.hdel_other registry pod_id other e2 ne,
        hashes.conn_keeps e1,
      )

  -- No entry of a list has this pod's id and a heartbeat that is too old.
  abbrev pub Alive : ℤ → Text → List (Text × Text) → Type 0
  Alive now pod [] = Unit
  Alive now pod ((pod_id, json) ∷ all) =
      ((text_eq pod_id pod ≡ false) ⊎ Fresh now (serde.from_str json)) × Alive now pod all

  evict_if_dead_keeps :
      (now : ℤ) (pod_id pod : Text) (o : Option PodInfo) (s : Store) {t : Store}
      → (text_eq pod_id pod ≡ false) ⊎ Fresh now o
      → evict_if_dead w hashes serde now pod_id o s ≡ (ok tt, t)
      → field t registry pod ≡ field s registry pod
  unfolding evict_if_dead
  evict_if_dead_keeps now pod_id pod none s c h =
      pure-cases h λ e at. ap (λ u. field u registry pod) at
  evict_if_dead_keeps now pod_id pod (some info) s c h = elim (Bool-cases (is_dead now info)) [
    | inl dead ↦ elim c [
      | inl ne ↦
          remove_pod_other pod_id pod s
            (ap (λ b. (if b then remove_pod w hashes serde pod_id else pure tt) s) (sym dead) ∙ h)
            ne
      | inr fresh ↦ absurd (cc (dead, fresh))
    ]
    | inr alive ↦
        pure-cases
          (ap (λ b. (if b then remove_pod w hashes serde pod_id else pure tt) s) (sym alive) ∙ h)
          λ e at. ap (λ u. field u registry pod) at
  ]

  same_none :
      (now : ℤ) (pod_id pod : Text) (o : Option PodInfo) (s : Store) {t : Store}
      → pod_id ≡ pod
      → field s registry pod ≡ none
      → evict_if_dead w hashes serde now pod_id o s ≡ (ok tt, t)
      → field t registry pod ≡ none
  unfolding evict_if_dead
  same_none now pod_id pod none s same gone h =
      pure-cases h λ e at. ap (λ u. field u registry pod) at ∙ gone
  same_none now pod_id pod (some info) s same gone h = elim (Bool-cases (is_dead now info)) [
    | inl dead ↦
        ap (field _ registry) (sym same)
        ∙ (remove_pod_ok pod_id s (
            ap (λ b. (if b then remove_pod w hashes serde pod_id else pure tt) s) (sym dead) ∙ h)).0
    | inr alive ↦
        pure-cases
          (ap (λ b. (if b then remove_pod w hashes serde pod_id else pure tt) s) (sym alive) ∙ h)
          λ e at. ap (λ u. field u registry pod) at ∙ gone
  ]

  -- A pod that no listed entry names with a heartbeat that is too old stays in the registry as it
  -- was when a health check has gone through the list with no error.
  pub evict_all_keeps :
      (now : ℤ) (all : List (Text × Text)) (pod : Text) (s : Store) {t : Store}
      → Alive now pod all
      → evict_all w hashes serde now all s ≡ (ok tt, t)
      → field t registry pod ≡ field s registry pod
  unfolding evict_all
  evict_all_keeps now [] pod s alive h = pure-cases h λ e at. ap (λ u. field u registry pod) at
  evict_all_keeps now ((pod_id, json) ∷ all) pod s alive h = bind-cases _ _ _ h λ u s1 e1 h1.
      evict_all_keeps now all pod s1 alive.1 h1
      ∙ evict_if_dead_keeps now pod_id pod (serde.from_str json) s alive.0 e1

  evict_if_dead-none :
      (now : ℤ) (pod_id pod : Text) (o : Option PodInfo) (s : Store) {t : Store}
      → field s registry pod ≡ none
      → evict_if_dead w hashes serde now pod_id o s ≡ (ok tt, t)
      → field t registry pod ≡ none
  evict_if_dead-none now pod_id pod o s gone h = elim (Bool-cases (text_eq pod_id pod)) [
    | inr ne ↦ evict_if_dead_keeps now pod_id pod o s (inl ne) h ∙ gone
    | inl same ↦ same_none now pod_id pod o s ((text_eq_iff pod_id pod).0 same) gone h
  ]

  pub evict_all-none :
      (now : ℤ) (all : List (Text × Text)) (pod : Text) (s : Store) {t : Store}
      → field s registry pod ≡ none
      → evict_all w hashes serde now all s ≡ (ok tt, t)
      → field t registry pod ≡ none
  unfolding evict_all
  evict_all-none now [] pod s gone h = pure-cases h λ e at. ap (λ u. field u registry pod) at ∙ gone
  evict_all-none now ((pod_id, json) ∷ all) pod s gone h = bind-cases _ _ _ h λ u s1 e1 h1.
      evict_all-none now all pod s1
        (evict_if_dead-none now pod_id pod (serde.from_str json) s gone e1) h1

  evict_dead_gone :
      (now : ℤ) (pod : Text) (o : Option PodInfo) {info : PodInfo} (s : Store) {t : Store}
      → o ≡ some info
      → is_dead now info ≡ true
      → evict_if_dead w hashes serde now pod o s ≡ (ok tt, t)
      → field t registry pod ≡ none
  unfolding evict_if_dead
  evict_dead_gone now pod none s e dead h = cc
  evict_dead_gone now pod (some old) {info} s e dead h =
      let same : old ≡ info = ground (arith, e) in
      (remove_pod_ok pod s (
        ap (λ b. (if b then remove_pod w hashes serde pod else pure tt) s)
          (sym dead ∙ ap (is_dead now) (sym same))
        ∙ h)).0

  -- A pod whose entry can be read and has a heartbeat that is too old is gone from the registry
  -- after a health check has gone through a list with that entry with no error, wherever the entry
  -- stands in it.
  pub evict_all_removes :
      (now : ℤ) (earlier : List (Text × Text)) (pod json : Text) (later : List (Text × Text))
      (info : PodInfo) (s : Store) {t : Store}
      → serde.from_str json ≡ some info
      → is_dead now info ≡ true
      → evict_all w hashes serde now (earlier ++ ((pod, json) ∷ later)) s ≡ (ok tt, t)
      → field t registry pod ≡ none
  unfolding evict_all
  evict_all_removes now [] pod json later info s e dead h = bind-cases _ _ _ h λ u s1 e1 h1.
      evict_all-none now later pod s1 (evict_dead_gone now pod (serde.from_str json) s e dead e1) h1
  evict_all_removes now ((p, j) ∷ earlier) pod json later info s e dead h =
      bind-cases _ _ _ h
        λ u s1 e1 h1. evict_all_removes now earlier pod json later info s1 e dead h1
