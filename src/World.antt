-- ===== src/World.antt =====
-- What the sidecar reaches outside of its process: a Redis server by the crate `redis`, the wall
-- clock and the timer. An interface with the documented effect of each command that succeeds; of a
-- command that fails nothing is said. Other processes act while this one sleeps.
pub mod Confined
pub mod Clocked
pub mod Memory
use ghostcacher.Prelude.{
  ℕ, zero, suc, ◌-◌, ◌<◌, ◌≡◌, Bool, leb, true, false, Option, none, some, List, ◌++◌,
  if◌then◌else◌,
}
use ghostcacher.Prelude.Int.{ℤ, pos, negsuc}
use ghostcacher.Text.{Text, lit, text_eq}
use ghostcacher.Exec.{Exec, ok}

-- The string keys of the database: what is stored, and the seconds until it expires, if it does.
pub record Db : Type 0 where
  pub value : Text → Option Text
  pub ttl : Text → Option ℕ

unfoldable pub put : Text → Text → Option ℕ → Db → Db
put k v t db = record {
  value = λ j. if text_eq k j then some v else db.value j;
  ttl = λ j. if text_eq k j then t else db.ttl j;
}

unfoldable pub remove : Text → Db → Db
remove k db = record {
  value = λ j. if text_eq k j then none else db.value j;
  ttl = λ j. if text_eq k j then none else db.ttl j;
}

-- `SET k v NX EX t`: the reply and the database.
unfoldable pub claim : Text → Text → ℕ → Db → Option Text × Db
unfolding put
claim k v t db = elim (db.value k) [
  | none ↦ (some (lit "OK"), put k v (some t) db)
  | some old ↦ (none, db)
]

-- `EXPIRE k n`; a time that is not positive deletes the key.
unfoldable pub expire_in : Text → ℤ → Db → Db
unfolding remove
expire_in k (pos (suc n)) db = record db {
  ttl = λ j. elim (db.value j) [
    | none ↦ db.ttl j
    | some v ↦ if text_eq k j then some (suc n) else db.ttl j
  ];
}
expire_in k _ db = remove k db

-- Whether a time to live ends within n seconds.
unfoldable pub ends_within : ℕ → Option ℕ → Bool
ends_within n none = false
ends_within n (some t) = leb t n

-- After n seconds in which the server gets no command.
unfoldable pub elapse : ℕ → Db → Db
unfolding ends_within
elapse n db = record {
  value = λ j. if ends_within n (db.ttl j) then none else db.value j;
  ttl = λ j. elim (db.ttl j) [ none ↦ none | some t ↦ if leb t n then none else some (t - n) ];
}

abbrev pub is_some {ℓ} : {A : Type ℓ} → Option A → Bool
is_some none = false
is_some (some a) = true

pub record World : Type 1 where
  pub Store : Type 0
  -- The state of the server's string keys.
  pub view : Store → Db
  -- `SystemTime::now()` in seconds since 1970.
  pub unix_now : Store → ℕ
  -- `tokio::time::sleep`, in milliseconds.
  pub sleep : ℕ → Store → Store
  -- `get_multiplexed_async_connection` and the commands.
  pub conn : Exec Store (Unit {0})
  pub get : Text → Exec Store (Option Text)
  pub set : Text → Text → Exec Store (Unit {0})
  pub set_ex : Text → Text → ℕ → Exec Store (Unit {0})
  pub set_nx_ex : Text → Text → ℕ → Exec Store (Option Text)
  pub expire : Text → ℤ → Exec Store (Unit {0})
  pub del : Text → Exec Store (Unit {0})
  pub exists : Text → Exec Store Bool
  pub incr : Text → ℕ → Exec Store (Unit {0})
  pub keys : Text → Exec Store (List Text)
  -- Their effects.
  pub conn_ok : {s t : Store} → conn s ≡ (ok tt, t) → view t ≡ view s
  pub get_ok :
      (k : Text) {r : Option Text} {s t : Store}
      → get k s ≡ (ok r, t)
      → (r ≡ (view s).value k) × (view t ≡ view s)
  pub set_ok : (k v : Text) {s t : Store} → set k v s ≡ (ok tt, t) → view t ≡ put k v none (view s)
  pub set_ex_ok :
      (k v : Text) (n : ℕ) {s t : Store}
      → set_ex k v n s ≡ (ok tt, t)
      → view t ≡ put k v (some n) (view s)
  pub set_nx_ex_ok :
      (k v : Text) (n : ℕ) {r : Option Text} {s t : Store}
      → set_nx_ex k v n s ≡ (ok r, t)
      → (r, view t) ≡ claim k v n (view s)
  pub expire_ok :
      (k : Text) (n : ℤ) {s t : Store} → expire k n s ≡ (ok tt, t) → view t ≡ expire_in k n (view s)
  pub del_ok : (k : Text) {s t : Store} → del k s ≡ (ok tt, t) → view t ≡ remove k (view s)
  pub exists_ok :
      (k : Text) {r : Bool} {s t : Store}
      → exists k s ≡ (ok r, t)
      → (r ≡ is_some ((view s).value k)) × (view t ≡ view s)
  pub incr_ok :
      (k : Text) (n : ℕ) {s t : Store}
      → incr k n s ≡ (ok tt, t)
      → (j : Text) → text_eq k j ≡ false
      → ((view t).value j ≡ (view s).value j) × ((view t).ttl j ≡ (view s).ttl j)
  pub keys_ok :
      (pattern : Text) {r : List Text} {s t : Store} → keys pattern s ≡ (ok r, t) → view t ≡ view s
