-- ===== src/Text/Laws.antt =====
-- Equality and order of texts.
use mathlib.Core.Path.{◌≡◌}
use ghostcacher.Prelude.{refl, ◌↔◌, ◌⊎◌, inl, inr, ◌≢◌, Bool-cases, true, false, [], ◌∷◌, arith}
use ghostcacher.Prelude.Sort.{IsLinear}
use ghostcacher.Text.{Text, text_eq, text_le}

pub text_eq_iff : (s t : Text) → (text_eq s t ≡ true) ↔ (s ≡ t)
unfolding text_eq
text_eq_iff [] [] = ground arith
text_eq_iff [] (d ∷ t) = ground arith
text_eq_iff (c ∷ s) [] = ground arith
text_eq_iff (c ∷ s) (d ∷ t) = ground (arith, text_eq_iff s t)

pub text_eq_refl : (s : Text) → text_eq s s ≡ true
text_eq_refl s = (text_eq_iff s s).1 refl

pub Text-cases : (s t : Text) → (s ≡ t) ⊎ (s ≢ t)
Text-cases s t = elim (Bool-cases (text_eq s t)) [
  | inl e ↦ inl ((text_eq_iff s t).0 e)
  | inr e ↦ inr (λ p. cc ((text_eq_iff s t).1 p))
]

text_le-total : (s t : Text) → text_le s t ≡ false → text_le t s ≡ true
unfolding text_le
text_le-total [] [] h = refl
text_le-total [] (d ∷ t) h = cc
text_le-total (c ∷ s) [] h = refl
text_le-total (c ∷ s) (d ∷ t) h = ground (arith, text_le-total s t)

text_le_trans : (s t u : Text) → text_le s t ≡ true → text_le t u ≡ true → text_le s u ≡ true
unfolding text_le
text_le_trans [] t u h k = refl
text_le_trans (c ∷ s) [] u h k = cc
text_le_trans (c ∷ s) (d ∷ t) [] h k = cc
text_le_trans (c ∷ s) (d ∷ t) (e ∷ u) h k = ground (arith, text_le_trans s t u)

text_le_antisymm : (s t : Text) → text_le s t ≡ true → text_le t s ≡ true → s ≡ t
unfolding text_le
text_le_antisymm [] [] h k = refl
text_le_antisymm [] (d ∷ t) h k = cc
text_le_antisymm (c ∷ s) [] h k = cc
text_le_antisymm (c ∷ s) (d ∷ t) h k = ground (arith, text_le_antisymm s t)

-- The order by which sections are sorted is linear.
pub text_le-IsLinear : IsLinear text_le
text_le-IsLinear = record {
  total = text_le-total;
  transitive = text_le_trans;
  antisymmetric = text_le_antisymm;
}

pub Text-set : IsSet Text
Text-set = hlevel
