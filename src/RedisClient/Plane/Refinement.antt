-- ===== src/RedisClient/Plane/Refinement.antt =====
-- The operations on Redis do what the abstract plane promises.
use mathlib.Core.Option
use ghostcacher.Prelude.{
  ℕ, zero, suc, ◌≡◌, refl, sym, ap, ap₂, ◌∙◌, fun_ext, Bool, true, false, Option, none, some, List,
  [], ◌∷◌, inl, inr, Bool-cases, arith, if◌then◌else◌,
}
use ghostcacher.Prelude.Int.{ℤ, pos, negsuc, as_i64}
use ghostcacher.Text.{Text, text_eq}
use ghostcacher.Types.{TtlPolicy, infinite, fixed, sliding, CacheEntry, redis_ttl_secs}
use ghostcacher.Exec.{ok, bind-cases, pure-cases}
use ghostcacher.Serde.{Serde}
use ghostcacher.World.{World, Db, put, remove, expire_in, is_some}
use ghostcacher.RedisClient.{cache_key, lock_key, touch, write}
use ghostcacher.RedisClient.Lookup.{refreshed, Hit, Looked, missed, found, lookup-Looked, write_ok}
use ghostcacher.RedisClient.Lock.{acquired, try_acquire_ok, release_ok}
use ghostcacher.RedisClient.Plane.{
  Plane, update, Call, to_write, to_look_up, to_acquire, to_release, Reply, done, looked_up, took,
  hit_plane, promised, promised_all, plane, perform, perform_all,
}

Plane-ext :
    (p q : Plane)
    → p.entry ≡ q.entry
    → p.ttl ≡ q.ttl
    → p.locked ≡ q.locked
    → p.lease ≡ q.lease
    → p ≡ q
Plane-ext p q e t l n = cc

cache_key-cache_key : (a b : Text) → text_eq (cache_key a) (cache_key b) ≡ text_eq a b
unfolding cache_key text_eq
cache_key-cache_key a b = refl

lock_key-lock_key : (a b : Text) → text_eq (lock_key a) (lock_key b) ≡ text_eq a b
unfolding lock_key text_eq
lock_key-lock_key a b = refl

cache_key-lock_key : (a b : Text) → text_eq (cache_key a) (lock_key b) ≡ false
unfolding cache_key lock_key text_eq
cache_key-lock_key a b = refl

lock_key-cache_key : (a b : Text) → text_eq (lock_key a) (cache_key b) ≡ false
unfolding cache_key lock_key text_eq
lock_key-cache_key a b = refl

Db-ext : (a b : Db) → a.value ≡ b.value → a.ttl ≡ b.ttl → a ≡ b
Db-ext a b v t = cc

put-expire_in :
    (k v : Text) (n : Option ℕ) (z : ℤ) (db : Db) → put k v n (expire_in k z db) ≡ put k v n db
unfolding put expire_in remove
put-expire_in k v n (pos zero) db =
    Db-ext _ _ (fun_ext λ j. ground arith) (fun_ext λ j. ground arith)
put-expire_in k v n (pos (suc m)) db =
    Db-ext _ _ (fun_ext λ j. ground arith) (fun_ext λ j. ground arith)
put-expire_in k v n (negsuc m) db =
    Db-ext _ _ (fun_ext λ j. ground arith) (fun_ext λ j. ground arith)

-- Setting a key covers what a refresh of its time to live did.
put-refreshed :
    (k v : Text) (n : Option ℕ) (policy : TtlPolicy) (db : Db)
    → put k v n (refreshed k policy db) ≡ put k v n db
put-refreshed k v n infinite db = refl
put-refreshed k v n (fixed m) db = refl
put-refreshed k v n (sliding m) db = put-expire_in k v n (as_i64 m) db

module _ (w : World) (serde : Serde) where
  open w use {Store, view}

  read_if :
      (b : Bool) (v : Text) (e : CacheEntry) (o : Option Text)
      → serde.from_str v ≡ some e
      → Option.bind (if b then some v else o) serde.from_str
        ≡ (if b then some e else Option.bind o serde.from_str)
  unfolding Option.bind
  read_if true v e o h = h
  read_if false v e o h = refl

  plane-put_entry :
      (h v : Text) (n : Option ℕ) (db : Db) (e : CacheEntry)
      → serde.from_str v ≡ some e
      → plane w serde (put (cache_key h) v n db) ≡ record (plane w serde db) {
        entry = update h (some e) (plane w serde db).entry;
        ttl = update h n (plane w serde db).ttl;
      }
  unfolding put
  plane-put_entry h v n db e r =
      Plane-ext _ _
        (fun_ext λ j.
          ap (λ b. Option.bind (if b then some v else db.value (cache_key j)) serde.from_str)
            (cache_key-cache_key h j)
          ∙ read_if (text_eq h j) v e (db.value (cache_key j)) r)
        (fun_ext λ j. rw (cache_key-cache_key h j) refl)
        (fun_ext λ j. rw (cache_key-lock_key h j) refl)
        (fun_ext λ j. rw (cache_key-lock_key h j) refl)

  plane-put_lock :
      (h v : Text) (n : Option ℕ) (db : Db)
      → plane w serde (put (lock_key h) v n db) ≡ record (plane w serde db) {
        locked = update h true (plane w serde db).locked;
        lease = update h n (plane w serde db).lease;
      }
  unfolding put
  plane-put_lock h v n db =
      Plane-ext _ _ (fun_ext λ j. rw (lock_key-cache_key h j) refl)
        (fun_ext λ j. rw (lock_key-cache_key h j) refl)
        (fun_ext λ j. rw (lock_key-lock_key h j) (ground arith))
        (fun_ext λ j. rw (lock_key-lock_key h j) (ground arith))

  plane-remove_lock :
      (h : Text) (db : Db)
      → plane w serde (remove (lock_key h) db) ≡ record (plane w serde db) {
        locked = update h false (plane w serde db).locked;
        lease = update h none (plane w serde db).lease;
      }
  unfolding remove
  plane-remove_lock h db =
      Plane-ext _ _ (fun_ext λ j. rw (lock_key-cache_key h j) refl)
        (fun_ext λ j. rw (lock_key-cache_key h j) refl)
        (fun_ext λ j. rw (lock_key-lock_key h j) (ground arith))
        (fun_ext λ j. rw (lock_key-lock_key h j) (ground arith))

  write_kept :
      (e : CacheEntry) (s : Store) {t : Store}
      → write w serde e s ≡ (ok tt, t)
      → plane w serde (view t) ≡ (promised 0 (to_write e) (plane w serde (view s))).1
  write_kept e s h =
      let (json, encoded, after) = write_ok w serde e s h in
      ap (plane w serde) after
      ∙ plane-put_entry e.prefix_hash json (redis_ttl_secs e.ttl_policy) (view s) e
          (serde.from_str-to_string encoded)

  Hit-kept :
      (h json : Text) (s u : Store) {r : Option CacheEntry} {t : Store}
      → (view s).value (cache_key h) ≡ some json
      → view u ≡ view s
      → Hit w serde (cache_key h) json u r t
      → (now : ℕ) × ((looked_up r, plane w serde (view t))
          ≡ promised now (to_look_up h) (plane w serde (view s)))
  unfolding Option.bind
  Hit-kept h json s u {r} {t} v same hit =
      let now = hit.now in
      let entry : (plane w serde (view s)).entry h ≡ some hit.old =
        ap (λ o. Option.bind o serde.from_str) v ∙ hit.read in
      (
        hit.now,
        ap₂ (λ (a : Option CacheEntry) (p : Plane). (looked_up a, p)) hit.returned
              (ap (plane w serde) hit.after
                ∙ ap (plane w serde)
                    (put-refreshed (cache_key h) hit.stored none hit.old.ttl_policy (view u))
                ∙ ap (λ db. (plane w serde) (put (cache_key h) hit.stored none db)) same
                ∙ plane-put_entry h hit.stored none (view s) (touch hit.now hit.old)
                    (serde.from_str-to_string hit.written))
            ∙ ap (hit_plane hit.now h (plane w serde (view s))) (sym entry),
      )

  look_up_kept :
      (h : Text) (s : Store) {r : Option CacheEntry} {t : Store}
      → Looked w serde (cache_key h) s r t
      → (now : ℕ) × ((looked_up r, plane w serde (view t))
          ≡ promised now (to_look_up h) (plane w serde (view s)))
  unfolding Option.bind
  look_up_kept h s (missed v returned same) = (
    0,
    ap₂ (λ (a : Option CacheEntry) (p : Plane). (looked_up a, p)) returned (ap (plane w serde) same)
        ∙ ap (λ o. hit_plane 0 h (plane w serde (view s)) (Option.bind o serde.from_str)) (sym v),
  )
  look_up_kept h s (found json u v same way hit) = Hit-kept h json s u v same hit

  acquire_kept :
      (h : Text) (db : Db)
      → (took (acquired w serde h db).0, plane w serde (acquired w serde h db).1)
        ≡ promised 0 (to_acquire h) (plane w serde db)
  acquire_kept h db = elim (Bool-cases (is_some (db.value (lock_key h)))) [
    | inl held ↦ rw held refl
    | inr free ↦ rw free (ap (λ (p : Plane). (took true, p)) (plane-put_lock h _ _ db))
  ]

  -- A call that succeeds does what is promised, at some time.
  pub perform_ok :
      (c : Call) (s : Store) {r : Reply} {t : Store}
      → perform w serde c s ≡ (ok r, t)
      → (now : ℕ) × ((r, plane w serde (view t)) ≡ promised now c (plane w serde (view s)))
  perform_ok (to_write e) s h = bind-cases _ _ _ h λ u s1 e1 h1. pure-cases h1 λ returned at. (
    0,
    ap₂ (λ (a : Reply) (x : Store). (a, plane w serde (view x))) returned at
        ∙ ap (λ (p : Plane). (done, p)) (write_kept e s e1),
  )
  perform_ok (to_look_up k) s h = bind-cases _ _ _ h λ r s1 e1 h1. pure-cases h1 λ returned at.
      let (now, kept) = look_up_kept k s (lookup-Looked w serde k s e1) in
      (now, ap₂ (λ (a : Reply) (x : Store). (a, plane w serde (view x))) returned at ∙ kept)
  perform_ok (to_acquire k) s h = bind-cases _ _ _ h λ b s1 e1 h1. pure-cases h1 λ returned at. (
    0,
    ap₂ (λ (a : Reply) (x : Store). (a, plane w serde (view x))) returned at
        ∙ ap (λ (p : Bool × Db). (took p.0, plane w serde p.1)) (try_acquire_ok w serde k s e1)
        ∙ acquire_kept k (view s),
  )
  perform_ok (to_release k) s h = bind-cases _ _ _ h λ u s1 e1 h1. pure-cases h1 λ returned at. (
    0,
    ap₂ (λ (a : Reply) (x : Store). (a, plane w serde (view x))) returned at
        ∙ ap (λ (p : Plane). (done, p))
            (ap (plane w serde) (release_ok w serde k s e1) ∙ plane-remove_lock k (view s)),
  )

  -- Any sequence of writes, lookups, acquisitions and releases that succeeds on Redis gives the
  -- replies of the abstract plane, in which a hit counts and loses its time to live and the lock is
  -- a flag, and leaves the database in its final state: the operations refine it.
  pub perform_all-promised_all :
      (cs : List Call) (s : Store) {rs : List Reply} {t : Store}
      → perform_all w serde cs s ≡ (ok rs, t)
      → (nows : List ℕ) × ((rs, plane w serde (view t))
          ≡ promised_all nows cs (plane w serde (view s)))
  perform_all-promised_all [] s h = pure-cases h λ returned at.
      ([], ap₂ (λ (a : List Reply) (x : Store). (a, plane w serde (view x))) returned at)
  perform_all-promised_all (c ∷ cs) s h = bind-cases _ _ _ h λ r s1 e1 h1.
      bind-cases _ _ _ h1 λ rs s2 e2 h2. pure-cases h2 λ returned at.
        let (now, first) = perform_ok c s e1 in
        let (nows, rest) = perform_all-promised_all cs s1 e2 in
        (
          now ∷ nows,
          ap₂ (λ (a : List Reply) (x : Store). (a, plane w serde (view x))) returned at
              ∙ ap (λ (q : List Reply × Plane). (r ∷ q.0, q.1)) rest
              ∙ ap
                  (λ (q : Reply × Plane).
                    let (rs, last) = promised_all nows cs q.1 in (q.0 ∷ rs, last))
                  first,
        )
