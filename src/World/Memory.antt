-- ===== src/World/Memory.antt =====
-- A server in memory that meets the interface: every command succeeds, and during each sleep the
-- other processes make the next of the changes that are listed. For instances of the theorems.
use ghostcacher.Prelude.{
  Option, ℕ, zero, suc, inl, inr, false, Option-cases, ◌+◌, ◌-◌, Bool, filter, length, take, ◌≡◌,
  refl, ap, none, some, List, [], ◌∷◌, arith,
}
use ghostcacher.Prelude.Int.{ℤ, pos, negsuc}
use ghostcacher.Text.{Text, starts_with, text_eq}
use ghostcacher.Exec.{Exec, Result, ok}
use ghostcacher.World.Confined.{Confined, CommandsConfined}
use ghostcacher.World.Clocked.{Clocked}
use ghostcacher.World.{World, Db, put, remove, claim, expire_in, is_some}

pub record Memory : Type 0 where
  pub db : Db
  pub known : List Text
  pub clock : ℕ
  -- The milliseconds that were slept.
  pub slept : ℕ
  pub others : List (Db → Db)
  -- The fields of the hashes, the later ones overridden.
  pub fields : Text → List (Text × Text)

-- A pattern that ends in a star, the only form that is used.
abbrev pub matches : Text → Text → Bool
matches pattern key = starts_with (take (length pattern - 1) pattern) key

abbrev pub asleep : ℕ → List (Db → Db) → Memory → Memory
asleep ms [] m = record m { slept = m.slept + ms }
asleep ms (act ∷ acts) m = record m { db = act m.db; others = acts; slept = m.slept + ms }

abbrev pub change : (Db → Db) → Exec Memory (Unit {0})
change f m = (ok tt, record m { db = f m.db })

-- From what a command returned, the state after it.
pub after_ok :
    {A : Type 0} {x a : A} {m n : Memory}
    → ◌≡◌ {A = Result A × Memory} (ok x, m) (ok a, n)
    → (a ≡ x) × (n.db ≡ m.db)
after_ok e = ground (arith, e)

pub fields_ok :
    {A : Type 0} {x a : A} {m n : Memory}
    → ◌≡◌ {A = Result A × Memory} (ok x, m) (ok a, n)
    → n.fields ≡ m.fields
fields_ok e = ground (arith, e)

-- The reply and the database of a `SET NX`.
pub claim_ok :
    {c : Option Text × Db} {r : Option Text} {db : Db} → (r ≡ c.0) × (db ≡ c.1) → (r, db) ≡ c
claim_ok e = cc (e.0, e.1)

abbrev pub memory : World
memory = record {
  Store = Memory;
  view = λ m. m.db;
  unix_now = λ m. m.clock;
  sleep = λ ms m. asleep ms m.others m;
  conn = λ m. (ok tt, m);
  get = λ k m. (ok (m.db.value k), m);
  set = λ k v m. (ok tt, record m { db = put k v none m.db; known = k ∷ m.known });
  set_ex = λ k v n m. (ok tt, record m { db = put k v (some n) m.db; known = k ∷ m.known });
  set_nx_ex = λ k v n m.
      (ok (claim k v n m.db).0, record m { db = (claim k v n m.db).1; known = k ∷ m.known });
  expire = λ k n. change (expire_in k n);
  del = λ k. change (remove k);
  exists = λ k m. (ok (is_some (m.db.value k)), m);
  incr = λ k n m. (ok tt, m);
  keys = λ pattern m. (ok (filter (matches pattern) m.known), m);
  conn_ok = λ e. (after_ok e).1;
  get_ok = λ k e. after_ok e;
  set_ok = λ k v e. (after_ok e).1;
  set_ex_ok = λ k v n e. (after_ok e).1;
  set_nx_ex_ok = λ k v n e. claim_ok (after_ok e);
  expire_ok = λ k n e. (after_ok e).1;
  del_ok = λ k e. (after_ok e).1;
  exists_ok = λ k e. after_ok e;
  incr_ok = λ k n e j ne.
      (ap (λ (db : Db). db.value j) (after_ok e).1, ap (λ (db : Db). db.ttl j) (after_ok e).1);
  keys_ok = λ pattern e. (after_ok e).1;
}

-- An empty server at a time.
abbrev pub empty : ℕ → Memory
empty now = record {
  db = record { value = λ k. none; ttl = λ k. none };
  known = [];
  clock = now;
  slept = 0;
  others = [];
  fields = λ h. [];
}

-- The value and the time to live of a key after a claim and an expiry of another.
claim-confined :
    (k v : Text) (n : ℕ) (j : Text) (db : Db)
    → text_eq k j ≡ false
    → ((claim k v n db).1.value j ≡ db.value j) × ((claim k v n db).1.ttl j ≡ db.ttl j)
unfolding claim put
claim-confined k v n j db ne = elim (Option-cases (db.value k)) [
  | inl e ↦ rw (e, claim) (rw ne refl, rw ne refl)
  | inr (old, e) ↦ rw (e, claim) (refl, refl)
]

expire_in-confined :
    (k : Text) (n : ℤ) (j : Text) (db : Db)
    → text_eq k j ≡ false
    → ((expire_in k n db).value j ≡ db.value j) × ((expire_in k n db).ttl j ≡ db.ttl j)
unfolding expire_in remove
expire_in-confined k (pos (suc n)) j db ne = elim (Option-cases (db.value j)) [
  | inl e ↦ (refl, rw (e, expire_in) refl)
  | inr (old, e) ↦ (refl, rw (e, expire_in) (rw ne refl))
]
expire_in-confined k (pos zero) j db ne = (rw ne refl, rw ne refl)
expire_in-confined k (negsuc n) j db ne = (rw ne refl, rw ne refl)

pub memory_confined : Confined memory
unfolding put remove
memory_confined = record {
  conn_confined = λ j s. (refl, refl);
  get_confined = λ k j s. (refl, refl);
  incr_confined = λ k n j ne s. (refl, refl);
  set_ex_confined = λ k v n j ne s. (rw ne refl, rw ne refl);
  del_confined = λ k j ne s. (rw ne refl, rw ne refl);
}

pub asleep-slept :
    (ms : ℕ) (acts : List (Db → Db)) (m : Memory) → (asleep ms acts m).slept ≡ m.slept + ms
asleep-slept ms [] m = refl
asleep-slept ms (act ∷ acts) m = refl

abbrev pub memory_clocked : Clocked memory
memory_clocked = record {
  slept_ms = λ m. m.slept;
  sleep_clocked = λ ms m. asleep-slept ms m.others m;
  conn_clocked = λ s. refl;
  exists_clocked = λ k s. refl;
  get_clocked = λ k s. refl;
  set_clocked = λ k v s. refl;
  expire_clocked = λ k n s. refl;
}

-- The server when no other process changes it during a sleep.
abbrev pub alone : World
alone = record memory { sleep = λ ms m. record m { slept = m.slept + ms } }

pub alone_confined : Confined alone
unfolding put remove
alone_confined = record {
  conn_confined = λ j s. (refl, refl);
  get_confined = λ k j s. (refl, refl);
  incr_confined = λ k n j ne s. (refl, refl);
  set_ex_confined = λ k v n j ne s. (rw ne refl, rw ne refl);
  del_confined = λ k j ne s. (rw ne refl, rw ne refl);
}

pub alone_commands : CommandsConfined alone
unfolding put
alone_commands = record {
  set_confined = λ k v j ne s. (rw ne refl, rw ne refl);
  set_nx_ex_confined = λ k v n j ne s. claim-confined k v n j s.db ne;
  expire_confined = λ k n j ne s. expire_in-confined k n j s.db ne;
  exists_confined = λ k j s. (refl, refl);
  keys_confined = λ pattern j s. (refl, refl);
}
