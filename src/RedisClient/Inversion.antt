-- ===== src/RedisClient/Inversion.antt =====
-- The effect of the commands on one key.
use ghostcacher.Prelude.{ℕ, ◌≡◌, Option, none, some}
use ghostcacher.Text.{Text}
use ghostcacher.Text.Laws.{text_eq_refl}
use ghostcacher.World.{Db, put, remove}

pub value-put : (k v : Text) (n : Option ℕ) (db : Db) → (put k v n db).value k ≡ some v
unfolding put
value-put k v n db = rw (text_eq_refl k)

pub ttl-put : (k v : Text) (n : Option ℕ) (db : Db) → (put k v n db).ttl k ≡ n
unfolding put
ttl-put k v n db = rw (text_eq_refl k)

pub value-remove : (k : Text) (db : Db) → (remove k db).value k ≡ none
unfolding remove
value-remove k db = rw (text_eq_refl k)
