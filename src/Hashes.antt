-- ===== src/Hashes.antt =====
-- The hashes of Redis, which control-plane/src/pod_registry.rs uses beside the string keys, and
-- what the crates `serde_json` and `redis` write for it. Interfaces with the documented effects.
use ghostcacher.Prelude.{ℕ, ◌≡◌, Option, some, none, false, List, [], ◌∷◌, ◌++◌}
use ghostcacher.Text.{Text, text_eq}
use ghostcacher.Exec.{Exec, ok}
use ghostcacher.World.{World}

-- Each pair of a listing is a field and its value.
abbrev pub Sound : (Text → Option Text) → List (Text × Text) → Type 0
Sound value [] = Unit
Sound value ((f, v) ∷ all) = (value f ≡ some v) × Sound value all

pub record Hashes (w : World) : Type 0 where
  -- The value of a field of a hash.
  pub field : w.Store → Text → Text → Option Text
  pub hset : Text → Text → Text → Exec w.Store (Unit {0})
  pub hdel : Text → Text → Exec w.Store (Unit {0})
  pub hgetall : Text → Exec w.Store (List (Text × Text))
  -- A listing has the fields of the hash, and all of them.
  pub hgetall_ok :
      (h : Text) {all : List (Text × Text)} {s t : w.Store}
      → hgetall h s ≡ (ok all, t)
      → Sound (field s h) all × (field t ≡ field s)
  pub hgetall_complete :
      (h f v : Text) {all : List (Text × Text)} {s t : w.Store}
      → hgetall h s ≡ (ok all, t)
      → field s h f ≡ some v
      → (earlier : List (Text × Text)) × (later : List (Text × Text)) × (all
          ≡ earlier ++ ((f, v) ∷ later))
  pub hset_ok :
      (h f v : Text) {s t : w.Store}
      → hset h f v s ≡ (ok tt, t)
      → (field t h f ≡ some v) × (w.view t ≡ w.view s)
  pub hset_other :
      (h f v g : Text) {s t : w.Store}
      → hset h f v s ≡ (ok tt, t)
      → text_eq f g ≡ false
      → field t h g ≡ field s h g
  pub hdel_ok :
      (h f : Text) {s t : w.Store}
      → hdel h f s ≡ (ok tt, t)
      → (field t h f ≡ none) × (w.view t ≡ w.view s)
  pub hdel_other :
      (h f g : Text) {s t : w.Store}
      → hdel h f s ≡ (ok tt, t)
      → text_eq f g ≡ false
      → field t h g ≡ field s h g
  -- Commands on string keys leave the hashes alone.
  pub conn_keeps : {s t : w.Store} → w.conn s ≡ (ok tt, t) → field t ≡ field s
  pub set_ex_keeps :
      (k v : Text) (n : ℕ) {s t : w.Store} → w.set_ex k v n s ≡ (ok tt, t) → field t ≡ field s
  pub del_keeps : (k : Text) {s t : w.Store} → w.del k s ≡ (ok tt, t) → field t ≡ field s
