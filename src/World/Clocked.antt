-- ===== src/World/Clocked.antt =====
-- A clock that only sleeping moves: an interface on top of the one to Redis. What commands and the
-- other code take is not counted.
use ghostcacher.Prelude.{ℕ, ◌+◌, ◌≡◌, refl, ◌∙◌}
use ghostcacher.Prelude.Int.{ℤ}
use ghostcacher.Text.{Text}
use ghostcacher.Exec.Frame.{Keeps, IsFrame}
use ghostcacher.World.{World}

-- The clock stands still.
abbrev pub Still : {S : Type 0} → (S → ℕ) → S → S → Type 0
Still clock s t = clock t ≡ clock s

pub Still-IsFrame : {S : Type 0} (clock : S → ℕ) → IsFrame (Still clock)
Still-IsFrame clock = record { stays = λ s. refl; goes_on = λ first second. second ∙ first }

pub record Clocked (w : World) : Type 0 where
  pub slept_ms : w.Store → ℕ
  pub sleep_clocked : (ms : ℕ) (s : w.Store) → slept_ms (w.sleep ms s) ≡ slept_ms s + ms
  pub conn_clocked : Keeps (Still slept_ms) w.conn
  pub exists_clocked : (k : Text) → Keeps (Still slept_ms) (w.exists k)
  pub get_clocked : (k : Text) → Keeps (Still slept_ms) (w.get k)
  pub set_clocked : (k v : Text) → Keeps (Still slept_ms) (w.set k v)
  pub expire_clocked : (k : Text) (n : ℤ) → Keeps (Still slept_ms) (w.expire k n)
