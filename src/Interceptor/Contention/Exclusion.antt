-- ===== src/Interceptor/Contention/Exclusion.antt =====
-- sidecar/src/interceptor.rs: who owns the lock of a prefix, in the scenes of Contention.
use ghostcacher.Prelude.{
  ℕ, ◌≢◌, ◌≤◌, leb, arith, ◌≡◌, refl, sym, ap, ◌∙◌, Bool, true, false, Option, none, some, ◌==◌,
  Bool-cases, inl, inr, ==_iff,
}
use ghostcacher.Text.{Text}
use ghostcacher.Text.Laws.{text_eq_refl}
use ghostcacher.Types.{CacheEntry}
use ghostcacher.Exec.{ok}
use ghostcacher.Serde.{Serde}
use ghostcacher.World.{World, Db, elapse, ends_within, is_some}
use ghostcacher.RedisClient.{lock_key}
use ghostcacher.RedisClient.Plane.{
  Plane, Call, Reply, to_write, to_look_up, to_acquire, to_release, done, looked_up, took, plane,
  perform, promised, hit_plane,
}
use ghostcacher.RedisClient.Plane.Refinement.{perform_ok}
use ghostcacher.Interceptor.Contention.{
  Phase, asking, owning, waiting, unowned, through, move, after_wait, Scene, Step, ask, look,
  give_up, fail, fall_back, linger, warm, free, stray, other, lapse, Reach, start, next,
}

module _ (w : World) (serde : Serde) (h : Text) where
  open w use {Store, view}

  abbrev locked : Store → Bool
  locked s = (plane w serde (view s)).locked h

  -- Who owns the lock holds it, and nobody else owns it.
  pub record Exclusive (s : Scene w serde h) : Type 0 where
    pub held : (i : ℕ) → s.phase i ≡ owning → locked s.store ≡ true
    pub unique : (i j : ℕ) → s.phase i ≡ owning → s.phase j ≡ owning → i ≡ j

  perform-locked :
      (c : Call) (s : Store) {r : Reply} {t : Store}
      → perform w serde c s ≡ (ok r, t)
      → (now : ℕ) × (r ≡ (promised now c (plane w serde (view s))).0)
        × (locked t ≡ (promised now c (plane w serde (view s))).1.locked h)
  perform-locked c s e =
      let (now, kept) = perform_ok w serde c s e in
      (now, ap (λ (x : Reply × Plane). x.0) kept, ap (λ (x : Reply × Plane). x.1.locked h) kept)

  promised-locked :
      (p : Plane) (b : Bool)
      → took b ≡ (promised 0 (to_acquire h) p).0
      → ((promised 0 (to_acquire h) p).1.locked h ≡ true) × ((b ≡ true) → p.locked h ≡ false)
  promised-locked p b r = elim (Bool-cases (p.locked h)) [
    | inl held ↦ (rw held held, λ won. cc (held, won, r))
    | inr loose ↦ (rw loose (rw (text_eq_refl h) refl), λ won. loose)
  ]

  acquire-locked :
      (s : Store) (b : Bool) {t : Store}
      → perform w serde (to_acquire h) s ≡ (ok (took b), t)
      → (locked t ≡ true) × ((b ≡ true) → locked s ≡ false)
  acquire-locked s b e =
      let (now, r, l) = perform-locked (to_acquire h) s e in
      let (held, loose) = promised-locked (plane w serde (view s)) b r in (l ∙ held, loose)

  -- A free lock is given to whom the server answers.
  free-took :
      (s : Store) (b : Bool) {t : Store}
      → locked s ≡ false
      → perform w serde (to_acquire h) s ≡ (ok (took b), t)
      → b ≡ true
  free-took s b loose e = let (now, r, l) = perform-locked (to_acquire h) s e in cc (rw loose at r)

  taken-lease :
      (p : Plane)
      → took true ≡ (promised 0 (to_acquire h) p).0
      → (promised 0 (to_acquire h) p).1.lease h ≡ some 30
  taken-lease p r = elim (Bool-cases (p.locked h)) [
    | inl held ↦ absurd (cc (rw held at r))
    | inr loose ↦ rw loose (rw (text_eq_refl h) refl)
  ]

  -- The lock of a thread that took it is dropped after 30 seconds.
  elapse-locked :
      (n : ℕ) (s : Store) {t u : Store}
      → 30 ≤ n
      → perform w serde (to_acquire h) s ≡ (ok (took true), t)
      → view u ≡ elapse n (view t)
      → locked u ≡ false
  unfolding elapse ends_within
  elapse-locked n s {t} {u} long e passed =
      let (now, kept) = perform_ok w serde (to_acquire h) s e in
      let leased : (view t).ttl (lock_key h) ≡ some 30 =
        ap (λ (x : Reply × Plane). x.1.lease h) kept
        ∙ taken-lease (plane w serde (view s)) (ap (λ (x : Reply × Plane). x.0) kept) in
      let over : leb 30 n ≡ true = ground (arith, long) in
      ap (λ (db : Db). is_some (db.value (lock_key h))) passed ∙ rw (leased, over) refl

  release-locked :
      (s : Store) {t : Store} → perform w serde (to_release h) s ≡ (ok done, t) → locked t ≡ false
  release-locked s e =
      let (now, r, l) = perform-locked (to_release h) s e in l ∙ rw (text_eq_refl h) refl

  write-locked :
      (entry : CacheEntry) (s : Store) {t : Store}
      → perform w serde (to_write entry) s ≡ (ok done, t)
      → locked t ≡ locked s
  write-locked entry s e = let (now, r, l) = perform-locked (to_write entry) s e in l

  hit_plane-locked :
      (now : ℕ) (p : Plane) (o : Option CacheEntry) → (hit_plane now h p o).1.locked h ≡ p.locked h
  hit_plane-locked now p none = refl
  hit_plane-locked now p (some e) = refl

  look-locked :
      (s : Store) {r : Option CacheEntry} {t : Store}
      → perform w serde (to_look_up h) s ≡ (ok (looked_up r), t)
      → locked t ≡ locked s
  look-locked s e =
      let (now, r, l) = perform-locked (to_look_up h) s e in
      l ∙ hit_plane-locked now (plane w serde (view s)) ((plane w serde (view s)).entry h)

  -- A thread that owns the lock after a move of i to another phase is not i.
  still :
      (s : Scene w serde h) (i : ℕ) (p : Phase) (j : ℕ)
      → ((p ≡ owning) → ⊥)
      → move i p s.phase j ≡ owning
      → (s.phase j ≡ owning) × ((i ≡ j) → ⊥)
  still s i p j quiet e = elim (Bool-cases (i == j)) [
    | inl same ↦ absurd (quiet (rw same at e))
    | inr apart ↦ (sym (rw apart refl) ∙ e, λ same. cc ((==_iff i j).1 same, apart))
  ]

  -- A step of one thread that ends in a phase other than owning.
  moved-Exclusive :
      (s : Scene w serde h) (i : ℕ) (p : Phase) (t : Store)
      → Exclusive s
      → ((p ≡ owning) → ⊥)
      → ((j : ℕ) → s.phase j ≡ owning → ((i ≡ j) → ⊥) → locked t ≡ true)
      → Exclusive (record { store = t; phase = move i p s.phase })
  moved-Exclusive s i p t ex quiet held = record {
    held = λ j e. let (own, apart) = still s i p j quiet e in held j own apart;
    unique = λ j k ej ek. ex.unique j k (still s i p j quiet ej).0 (still s i p k quiet ek).0;
  }

  kept-Exclusive :
      (s : Scene w serde h) (t : Store)
      → Exclusive s
      → locked t ≡ locked s.store
      → Exclusive (record s { store = t })
  kept-Exclusive s t ex same = record { held = λ j e. same ∙ ex.held j e; unique = ex.unique }

  -- Where the lock was free, the thread that takes it is the only one to own it.
  sole :
      (s : Scene w serde h) (i j : ℕ)
      → Exclusive s
      → locked s.store ≡ false
      → move i owning s.phase j ≡ owning
      → i ≡ j
  sole s i j ex loose e = elim (Bool-cases (i == j)) [
    | inl same ↦ (==_iff i j).0 same
    | inr apart ↦ absurd (cc (ex.held j (sym (rw apart refl) ∙ e), loose))
  ]

  taken-Exclusive :
      (s : Scene w serde h) (i : ℕ) (t : Store)
      → Exclusive s
      → (locked t ≡ true) × ((true ≡ true) → locked s.store ≡ false)
      → Exclusive (record { store = t; phase = move i owning s.phase })
  taken-Exclusive s i t ex (held, loose) = record {
    held = λ j own. held;
    unique = λ j k ej ek. sym (sole s i j ex (loose refl) ej) ∙ sole s i k ex (loose refl) ek;
  }

  after_wait-quiet : (r : Option CacheEntry) → (after_wait r ≡ owning) → ⊥
  after_wait-quiet none = cc
  after_wait-quiet (some e) = cc

  Step-Exclusive :
      {s t : Scene w serde h} → Step w serde h false false s t → Exclusive s → Exclusive t
  Step-Exclusive {s} (ask i true {t} e p) ex =
      taken-Exclusive s i t ex (acquire-locked s.store true p)
  Step-Exclusive {s} (ask i false {t} e p) ex =
      moved-Exclusive s i waiting t ex (cc) (λ j own apart. (acquire-locked s.store false p).0)
  Step-Exclusive {s} (look i {r} {t} e p) ex =
      moved-Exclusive s i (after_wait r) t ex (after_wait-quiet r)
        (λ j own apart. look-locked s.store p ∙ ex.held j own)
  Step-Exclusive {s} (fail i e) ex =
      moved-Exclusive s i waiting s.store ex (cc) (λ j own apart. ex.held j own)
  Step-Exclusive {s} (fall_back i e) ex =
      moved-Exclusive s i unowned s.store ex (cc) (λ j own apart. ex.held j own)
  Step-Exclusive {s} (linger i e) ex =
      moved-Exclusive s i through s.store ex (cc) (λ j own apart. ex.held j own)
  Step-Exclusive {s} (give_up i e) ex =
      moved-Exclusive s i unowned s.store ex (cc) (λ j own apart. ex.held j own)
  Step-Exclusive {s} (warm i entry {t} p) ex = kept-Exclusive s t ex (write-locked entry s.store p)
  Step-Exclusive {s} (free i {t} e p) ex =
      moved-Exclusive s i through t ex (cc) (λ j own apart. absurd (apart (ex.unique i j e own)))
  Step-Exclusive {s} (stray i never e p) ex = absurd (cc never)
  Step-Exclusive {s} (other t e) ex = kept-Exclusive s t ex e
  Step-Exclusive {s} (lapse n never e) ex = absurd (cc never)

  Reach-Exclusive : {s : Scene w serde h} → Reach w serde h false false s → Exclusive s
  Reach-Exclusive (start s all) = record {
    held = λ i own. absurd (cc (all i, own));
    unique = λ i j own _. absurd (cc (all i, own));
  }
  Reach-Exclusive (next r step) = Step-Exclusive step (Reach-Exclusive r)

  -- As long as only its owners release the lock of a prefix and its time to live does not run out,
  -- no order of the threads' steps gives it to two of them: of the scenes that follow from one in which all threads have yet to ask, two
  -- threads that own the lock are one, and the lock is then in the database.
  pub mutual_exclusion :
      {s : Scene w serde h} (i j : ℕ)
      → Reach w serde h false false s
      → s.phase i ≡ owning
      → s.phase j ≡ owning
      → (i ≡ j) × (locked s.store ≡ true)
  mutual_exclusion i j r own_i own_j =
      let ex = Reach-Exclusive r in (ex.unique i j own_i own_j, ex.held i own_i)

  moved : (i : ℕ) (p : Phase) (phase : ℕ → Phase) → move i p phase i ≡ p
  moved i p phase = rw ((==_iff i i).1 refl) refl

  moved_apart :
      {i j : ℕ} (phase : ℕ → Phase) (p : Phase) {q : Phase}
      → phase j ≡ q
      → ((i ≡ j) → ⊥)
      → move i p phase j ≡ q
  moved_apart {i} {j} phase p e apart = elim (Bool-cases (i == j)) [
    | inl same ↦ absurd (apart ((==_iff i j).0 same))
    | inr distinct ↦ rw distinct e
  ]

  -- With the tasks of misses that release a lock they never took, the exclusion is lost: where a
  -- thread owns the lock, another is a miss without it and a third has yet to ask, and the miss's
  -- task releases the lock and the third asks, and the server answers both, then the third gets the
  -- lock, and in the scene that this leads to the first and the third own it.
  pub stray_release :
      {s : Scene w serde h} (i j k : ℕ) {t u : Store} {b : Bool}
      → Reach w serde h true false s
      → s.phase i ≡ owning
      → s.phase j ≡ unowned
      → s.phase k ≡ asking
      → perform w serde (to_release h) s.store ≡ (ok done, t)
      → perform w serde (to_acquire h) t ≡ (ok (took b), u)
      → (b ≡ true)
        × (last : Scene w serde h) × Reach w serde h true false last
        × (last.phase i ≡ owning)
        × (last.phase k ≡ owning)
        × (i ≢ k)
  stray_release {s} i j k {t} {u} {b} r own_i miss_j ask_k rel acq =
      let given = free-took t b (release-locked s.store rel) acq in
      let released = next r (stray j refl miss_j rel) in
      (
        given,
        _,
        next released (
            ask k true (moved_apart s.phase through ask_k (λ same. cc (miss_j, ask_k, same)))
              (acq ∙ ap (λ c. (ok (took c), u)) given)),
        moved_apart (move j through s.phase) owning
            (moved_apart s.phase through own_i (λ same. cc (miss_j, own_i, same)))
            (λ same. cc (own_i, ask_k, same)),
        moved k owning (move j through s.phase),
        λ same. cc (own_i, ask_k, same),
      )

  -- With the time to live of the lock the exclusion is lost too: where two threads have yet to ask,
  -- the first gets the lock, 30 seconds or more pass in which the server gets no command, and the
  -- second asks and the server answers, then the second gets the lock and both own it; and the
  -- release by the first then leaves the second with a lock that is free.
  pub lapsed_lock :
      {s : Scene w serde h} (n : ℕ) (i k : ℕ) {a t u v : Store} {b : Bool}
      → 30 ≤ n
      → Reach w serde h false true s
      → i ≢ k
      → s.phase i ≡ asking
      → s.phase k ≡ asking
      → perform w serde (to_acquire h) s.store ≡ (ok (took true), a)
      → view t ≡ elapse n (view a)
      → perform w serde (to_acquire h) t ≡ (ok (took b), u)
      → perform w serde (to_release h) u ≡ (ok done, v)
      → (b ≡ true)
        × (both last : Scene w serde h) × Reach w serde h false true both
        × (both.phase i ≡ owning)
        × (both.phase k ≡ owning)
        × Step w serde h false true both last
        × (last.phase k ≡ owning)
        × (locked last.store ≡ false)
  lapsed_lock {s} n i k {a} {t} {u} {v} {b} long r distinct ask_i ask_k first passed acq rel =
      let given = free-took t b (elapse-locked n s.store long first passed) acq in
      let owned = move i owning s.phase in
      let still_k = moved_apart s.phase owning ask_k distinct in
      let still_i =
        moved_apart owned owning (moved i owning s.phase) (λ same. distinct (sym same)) in
      (
        given,
        _,
        _,
        next (next (next r (ask i true ask_i first)) (lapse n refl passed))
            (ask k true still_k (acq ∙ ap (λ c. (ok (took c), u)) given)),
        still_i,
        moved k owning owned,
        free i still_i rel,
        moved_apart (move k owning owned) through (moved k owning owned) distinct,
        release-locked u rel,
      )
