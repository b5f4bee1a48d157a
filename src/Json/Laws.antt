-- ===== src/Json/Laws.antt =====
-- Reading a field after writing one.
use ghostcacher.Prelude.{◌≡◌, refl, some, false, arith, if◌then◌else◌}
use mathlib.Core.Option
use ghostcacher.Text.{Text, text_eq}
use ghostcacher.Text.Laws.{text_eq_iff}
use ghostcacher.Json.{Value, Fields, end, field, lookup, insert, adjust}

pub lookup-insert :
    (k j : Text) (v : Value) (fs : Fields)
    → lookup j (insert k v fs) ≡ (if text_eq k j then some v else lookup j fs)
unfolding lookup insert
lookup-insert k j v end = refl
lookup-insert k j v (field i w fs) =
    ground (arith, text_eq_iff k j, text_eq_iff i k, text_eq_iff i j, lookup-insert k j v fs)

pub lookup-adjust :
    (k j : Text) (f : Value → Value) (fs : Fields)
    → lookup j (adjust k f fs) ≡ (if text_eq k j then Option.map f (lookup j fs) else lookup j fs)
unfolding lookup adjust
lookup-adjust k j f end = ground arith
lookup-adjust k j f (field i w fs) =
    ground (arith, text_eq_iff k j, text_eq_iff i k, text_eq_iff i j, lookup-adjust k j f fs)

pub adjust_idem :
    (k : Text) (f : Value → Value)
    → ((v : Value) → f (f v) ≡ f v)
    → (fs : Fields) → adjust k f (adjust k f fs) ≡ adjust k f fs
unfolding adjust
adjust_idem k f h end = refl
adjust_idem k f h (field j v fs) = ground (arith, h v, adjust_idem k f h fs)

pub adjust_comm :
    (k j : Text) (f g : Value → Value)
    → text_eq k j ≡ false
    → (fs : Fields) → adjust k f (adjust j g fs) ≡ adjust j g (adjust k f fs)
unfolding adjust
adjust_comm k j f g h end = refl
adjust_comm k j f g h (field i v fs) =
    ground (arith, text_eq_iff i k, text_eq_iff i j, text_eq_iff k j, adjust_comm k j f g h fs)
