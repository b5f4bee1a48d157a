-- ===== src/World/Confined.antt =====
-- Commands leave the keys that they do not name alone, also when they fail: an interface on top of
-- the one to Redis.
use ghostcacher.Prelude.{ℕ, ◌≡◌, refl, ◌∙◌, false}
use ghostcacher.Prelude.Int.{ℤ}
use ghostcacher.Text.{Text, text_eq}
use ghostcacher.Exec.Frame.{Keeps, IsFrame}
use ghostcacher.World.{World}
use ghostcacher.Hashes.{Hashes}

-- A string key has the value and the time to live that it had.
abbrev pub Same : (w : World) → Text → w.Store → w.Store → Type 0
Same w j s t = ((w.view t).value j ≡ (w.view s).value j) × ((w.view t).ttl j ≡ (w.view s).ttl j)

pub Same-IsFrame : (w : World) (j : Text) → IsFrame (Same w j)
Same-IsFrame w j = record {
  stays = λ s. (refl, refl);
  goes_on = λ first second. (second.0 ∙ first.0, second.1 ∙ first.1);
}

pub record Confined (w : World) : Type 0 where
  pub conn_confined : (j : Text) → Keeps (Same w j) w.conn
  pub get_confined : (k j : Text) → Keeps (Same w j) (w.get k)
  pub incr_confined :
      (k : Text) (n : ℕ) (j : Text) → text_eq k j ≡ false → Keeps (Same w j) (w.incr k n)
  pub set_ex_confined :
      (k v : Text) (n : ℕ) (j : Text) → text_eq k j ≡ false → Keeps (Same w j) (w.set_ex k v n)
  pub del_confined : (k j : Text) → text_eq k j ≡ false → Keeps (Same w j) (w.del k)

-- The commands of a sidecar that Confined does not name.
pub record CommandsConfined (w : World) : Type 0 where
  pub set_confined : (k v j : Text) → text_eq k j ≡ false → Keeps (Same w j) (w.set k v)
  pub set_nx_ex_confined :
      (k v : Text) (n : ℕ) (j : Text) → text_eq k j ≡ false → Keeps (Same w j) (w.set_nx_ex k v n)
  pub expire_confined :
      (k : Text) (n : ℤ) (j : Text) → text_eq k j ≡ false → Keeps (Same w j) (w.expire k n)
  pub exists_confined : (k j : Text) → Keeps (Same w j) (w.exists k)
  pub keys_confined : (pattern j : Text) → Keeps (Same w j) (w.keys pattern)

-- The commands on hashes leave the string keys alone.
pub record HashesConfined (w : World) (hashes : Hashes w) : Type 0 where
  pub hset_confined : (h f v j : Text) → Keeps (Same w j) (hashes.hset h f v)
  pub hgetall_confined : (h j : Text) → Keeps (Same w j) (hashes.hgetall h)
  pub hdel_confined : (h f j : Text) → Keeps (Same w j) (hashes.hdel h f)
