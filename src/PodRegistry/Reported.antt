-- ===== src/PodRegistry/Reported.antt =====
-- The load that a pod reports to the control plane, as the sidecars read it: upsert_pod of
-- control-plane/src/pod_registry.rs and list_pod_loads of sidecar/src/redis_client.rs meet at the
-- key of the load.
use ghostcacher.Prelude.{
  ◌≡◌, refl, sym, subst, ap, ◌∙◌, true, Option, none, some, List, [], ◌∷◌, ◌++◌, All,
}
use mathlib.Core.List.{Mem, mem-cons_self, mem-cons_of_mem}
use mathlib.Core.Option.{some-injective}
use ghostcacher.Prelude.Sort.{sort-All, sort-IsSorted, IsSorted, IsSorted-least}
use ghostcacher.F32.{F32, f32_le}
use ghostcacher.Text.{Text, lit, text_eq}
use ghostcacher.Text.Laws.{text_eq_refl}
use ghostcacher.Exec.{
  Result, Error, ok, err, same_ok, ◌>>=◌, redis_error, bind-cases, lift-cases, pure-cases,
  attempt-cases, or_panic-cases,
}
use ghostcacher.Exec.Frame.{Keeps, bind-Keeps, lift-Keeps, attempt-Keeps}
use ghostcacher.World.{World, Db, put}
use ghostcacher.World.Confined.{Same, Same-IsFrame, Confined}
use ghostcacher.Hashes.{Hashes}
use ghostcacher.Serde.{Serde}
use ghostcacher.RedisClient.{
  pod_id_of, parse_load, read_load, load_or_half, loads_of, list_pod_loads,
}
use ghostcacher.RedisClient.Loads.{sort_loads-some, by_load, by_load-IsTotal}
use ghostcacher.PodRegistry.{PodInfo, PodSerde, load_key, heartbeat_key, upsert_pod}
use ghostcacher.PodRegistry.Least.{f32_le_refl, f32_le_trans}
use ghostcacher.PodRegistry.Keys.{upsert_pod_ok}

pod_id_of-load_key : (pod_id : Text) → pod_id_of (load_key pod_id) ≡ pod_id
unfolding pod_id_of load_key ghostcacher.Text.strip_prefix
pod_id_of-load_key pod_id = refl

-- What holds of the members of a list holds all along it.
All-members : {A : Type 0} {P : A → Type 0} (xs : List A) → ((x : A) → Mem x xs → P x) → All P xs
All-members [] h = tt
All-members (x ∷ xs) h = (h x mem-cons_self, All-members xs (λ y m. h y (mem-cons_of_mem x m)))

module _ (w : World) (hashes : Hashes w) (pods : PodSerde) (serde : Serde)
    (confined : Confined w) where
  open w use {Store, view}

  -- After a heartbeat the key of the load has the pod's HBM utilization.
  upsert_pod-load :
      (info : PodInfo) (s : Store) {t : Store}
      → upsert_pod w hashes pods info s ≡ (ok tt, t)
      → (view t).value (load_key info.pod_id) ≡ some (pods.write_f32 info.hbm_util)
  unfolding load_key heartbeat_key put text_eq
  upsert_pod-load info s h =
      let (json, now, encoded, entered, after) = upsert_pod_ok w hashes pods info s h in
      ap (λ (db : Db). db.value (load_key info.pod_id)) after ∙ rw (text_eq_refl info.pod_id) refl

  parse_load-Keeps : (j : Text) (o : Option Text) → Keeps (Same w j) (parse_load w serde o)
  unfolding parse_load
  parse_load-Keeps j none = lift-Keeps _ (Same-IsFrame w j) {A = F32} redis_error none
  parse_load-Keeps j (some v) = lift-Keeps _ (Same-IsFrame w j) redis_error (serde.parse_f32 v)

  load_or_half-Keeps : (k j : Text) → Keeps (Same w j) (load_or_half w serde k)
  unfolding load_or_half read_load
  load_or_half-Keeps k j =
      let frame = Same-IsFrame w j in
      bind-Keeps _ frame _ _
        (attempt-Keeps _ frame _
          (bind-Keeps _ frame _ _ (confined.get_confined k j) (parse_load-Keeps j)))
        λ got s. frame.stays s

  read_load_ok :
      (key v : Text) (x : F32) (s : Store) {load : F32} {t : Store}
      → (view s).value key ≡ some v
      → serde.parse_f32 v ≡ some x
      → read_load w serde key s ≡ (ok load, t)
      → load ≡ x
  unfolding read_load parse_load
  read_load_ok key v x s has parsed h = bind-cases _ _ _ h λ val s1 e1 h1.
      let read : val ≡ some v = (w.get_ok key e1).0 ∙ has in
      lift-cases _ _ _ (ap (λ o. parse_load w serde o s1) (sym read) ∙ h1)
        λ number at. some-injective _ _ (sym number ∙ parsed)

  -- Where Redis answers the read of a key that holds a load, the load is read.
  -- The server answers a `GET` of a key in each state in which the key has a value.
  abbrev pub AnswersGet : Text → Text → Type 0
  AnswersGet key v =
      (s : Store)
      → (view s).value key ≡ some v
      → (r : Option Text) × (t : Store) × (w.get key s ≡ (ok r, t))

  read_load-answered :
      (key v : Text) (x : F32) (s : Store) {e : Error} {t : Store}
      → AnswersGet key v
      → (view s).value key ≡ some v
      → serde.parse_f32 v ≡ some x
      → read_load w serde key s ≡ (err e, t)
      → ⊥
  unfolding read_load parse_load ◌>>=◌
  read_load-answered key v x s answers has parsed h =
      let (r, u, got) = answers s has in
      let read : r ≡ some v = (w.get_ok key got).0 ∙ has in cc (rw (got, read, parsed) at h)

  load_or_half_ok :
      (key v : Text) (x : F32) (s : Store) {load : F32} {t : Store}
      → AnswersGet key v
      → (view s).value key ≡ some v
      → serde.parse_f32 v ≡ some x
      → load_or_half w serde key s ≡ (ok load, t)
      → load ≡ x
  unfolding load_or_half
  load_or_half_ok key v x s answers has parsed h = bind-cases _ _ _ h λ got s1 e1 h1.
      pure-cases h1 λ returned at.
        attempt-cases (read_load w serde key) s e1
          (λ a e f. cc (returned, e, read_load_ok key v x s has parsed f))
          (λ r e f. absurd (read_load-answered key v x s answers has parsed f))

  -- What holds of all loads that were read holds of the one of a key among those that were found.
  loads_of-All :
      (earlier : List Text) (key v : Text) (later : List Text) (x : F32) (s : Store)
      {loads : List (Text × F32)} {t : Store}
      → AnswersGet key v
      → (view s).value key ≡ some v
      → serde.parse_f32 v ≡ some x
      → loads_of w serde (earlier ++ (key ∷ later)) s ≡ (ok loads, t)
      → (P : Text × F32 → Type 0) → All P loads
      → P (pod_id_of key, x)
  unfolding loads_of
  loads_of-All [] key v later x s answers has parsed h P all = bind-cases _ _ _ h λ load s1 e1 h1.
      bind-cases _ _ _ h1 λ rest s2 e2 h2. pure-cases h2 λ returned at.
        subst (λ y. P (pod_id_of key, y)) (load_or_half_ok key v x s answers has parsed e1)
          (subst (All P) returned all).0
  loads_of-All (k ∷ earlier) key v later x s answers has parsed h P all =
      bind-cases _ _ _ h λ load s1 e1 h1. bind-cases _ _ _ h1 λ rest s2 e2 h2.
        pure-cases h2 λ returned at.
          let kept = load_or_half-Keeps k key s in
          let here : (view s1).value key ≡ some v =
            ap (λ (r : Result F32 × Store). (view r.1).value key) (sym e1) ∙ kept.0 ∙ has in
          loads_of-All earlier key v later x s1 answers here parsed e2 P
            (subst (All P) returned all).1

  -- A pod that is listed with a load, and the first of the list, which has no larger one.
  pub record Listed (pod_id : Text) (x : F32) (loads : List (Text × F32)) : Type 0 where
    pub among : Mem (pod_id, x) loads
    pub first : Text × F32
    pub rest : List (Text × F32)
    pub split : loads ≡ first ∷ rest
    pub least : f32_le first.1 x ≡ true

  sorted-Listed :
      (pod_id : Text) (x : F32) (loads : List (Text × F32))
      → IsSorted by_load loads
      → ((P : Text × F32 → Type 0) → All P loads → P (pod_id, x))
      → Listed pod_id x loads
  sorted-Listed pod_id x [] sorted among = absurd (among (λ p. ⊥) tt)
  sorted-Listed pod_id x (p ∷ loads) sorted among = record {
    among = among (λ q. Mem q (p ∷ loads)) (All-members (p ∷ loads) (λ q m. m));
    first = p;
    rest = loads;
    split = refl;
    least =
        among (λ q. f32_le p.1 q.1 ≡ true)
          (
            f32_le_refl p.1,
            IsSorted-least by_load (λ a b c. f32_le_trans a.1 b.1 c.1) p loads sorted,
          );
  }

  -- When a pod's heartbeat has been recorded with no error, and a sidecar then lists the loads with
  -- no error, where the keys that Redis found have the key of this pod's load, Redis answers the
  -- `GET` of that key, and the load is read back as it was written, then the list has this pod with
  -- the HBM utilization that it reported; and the pod that heads the list, to which the sidecar
  -- ascribes a cold miss, has no larger load.
  pub upsert_pod-list_pod_loads :
      (info : PodInfo) (s : Store) (earlier later : List Text) {t a b u : Store}
      {loads : List (Text × F32)}
      → upsert_pod w hashes pods info s ≡ (ok tt, t)
      → w.conn t ≡ (ok tt, a)
      → w.keys (lit "pod_load:*") a ≡ (ok (earlier ++ (load_key info.pod_id ∷ later)), b)
      → AnswersGet (load_key info.pod_id) (pods.write_f32 info.hbm_util)
      → serde.parse_f32 (pods.write_f32 info.hbm_util) ≡ some info.hbm_util
      → list_pod_loads w serde t ≡ (ok loads, u)
      → Listed info.pod_id info.hbm_util loads
  unfolding list_pod_loads
  upsert_pod-list_pod_loads info s earlier later {t} {a} {b} {u} {loads} up connected found answers
        parsed h =
      bind-cases _ _ _ h λ x s1 e1 h1. bind-cases _ _ _ h1 λ keys s2 e2 h2.
        bind-cases _ _ _ h2 λ read s3 e3 h3. or_panic-cases _ h3 λ sorted at.
          let key = load_key info.pod_id in
          let at1 : s1 ≡ a = ap (λ (r : Result (Unit {0}) × Store). r.1) (sym e1 ∙ connected) in
          let again : w.keys (lit "pod_load:*") a ≡ (ok keys, s2) =
            ap (w.keys (lit "pod_load:*")) (sym at1) ∙ e2 in
          let (listed, at2) = same_ok (sym again ∙ found) in
          let has : (view s2).value key ≡ some (pods.write_f32 info.hbm_util) =
            ap (λ (db : Db). db.value key) (w.keys_ok _ e2 ∙ w.conn_ok e1)
            ∙ upsert_pod-load info s up in
          let same = sort_loads-some read sorted in
          sorted-Listed info.pod_id info.hbm_util loads
            (subst (IsSorted by_load) same (sort-IsSorted by_load by_load-IsTotal read))
            (λ P all.
              subst (λ id. P (id, info.hbm_util)) (pod_id_of-load_key info.pod_id)
                (loads_of-All earlier key _ later info.hbm_util s2 answers has parsed
                  (ap (λ l. loads_of w serde l s2) (sym listed) ∙ e3) P
                  (sort-All by_load P read (subst (All P) (sym same) all))))
