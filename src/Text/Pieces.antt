-- ===== src/Text/Pieces.antt =====
-- `split` by a separator whose first character does not come back in it.
use ghostcacher.Prelude.{
  ℕ, zero, ◌≡◌, refl, ap, ◌∙◌, Bool, true, false, ◌&&◌, List, [], ◌∷◌, ◌++◌, All, arith, length,
  ◌==◌,
}
use ghostcacher.Text.{Text, starts_with, contains, split_from, split, text_le}

-- The text with the given pieces.
abbrev pub pieces_text : Text → Text → List Text → Text
pieces_text sep s [] = s
pieces_text sep s (x ∷ xs) = s ++ (sep ++ pieces_text sep x xs)

module _ (p : ℕ) (ps : Text) (once : All (λ c. (c == p) ≡ false) ps) where
  abbrev sep : Text
  sep = p ∷ ps

  starts_with-append :
      (qs s r : Text)
      → All (λ c. (c == p) ≡ false) qs
      → starts_with qs (s ++ p ∷ r) ≡ starts_with qs s
  unfolding starts_with
  starts_with-append [] s r h = refl
  starts_with-append (q ∷ qs) [] r h = rw h.0 refl
  starts_with-append (q ∷ qs) (d ∷ s) r h =
      ap (λ (b : Bool). (q == d) && b) (starts_with-append qs s r h.1)

  starts_with_self : (qs r : Text) → starts_with qs (qs ++ r) ≡ true
  unfolding starts_with
  starts_with_self [] r = refl
  starts_with_self (q ∷ qs) r = ground (arith, starts_with_self qs r)

  split_from-skip : (qs r : Text) → split_from sep (length qs) (qs ++ r) ≡ split_from sep zero r
  unfolding split_from
  split_from-skip [] r = refl
  split_from-skip (q ∷ qs) r = split_from-skip qs r

  -- A piece without a separator ends where the next separator begins.
  pub split-append :
      (s r : Text) → contains sep s ≡ false → split sep (s ++ (sep ++ r)) ≡ s ∷ split sep r
  unfolding split contains
  split-append [] r h = ground (arith, starts_with_self ps r, split_from-skip ps r)
  split-append (c ∷ s) r h =
      ground (arith, starts_with-append ps s (ps ++ r) once, split-append s r)

  pub split_last : (s : Text) → contains sep s ≡ false → split sep s ≡ s ∷ []
  unfolding split contains
  split_last [] h = refl
  split_last (c ∷ s) h = ground (arith, split_last s)

  -- Splitting finds the pieces again.
  pub split-pieces_text :
      (s : Text) (xs : List Text)
      → contains sep s ≡ false
      → All (λ x. contains sep x ≡ false) xs
      → split sep (pieces_text sep s xs) ≡ s ∷ xs
  split-pieces_text s [] h hs = split_last s h
  split-pieces_text s (x ∷ xs) h hs =
      split-append s (pieces_text sep x xs) h ∙ ap (λ l. s ∷ l) (split-pieces_text x xs hs.0 hs.1)

-- The texts differ at a place that both have: neither begins with the other.
abbrev pub diverge : Text → Text → Bool
diverge [] t = false
diverge (c ∷ s) [] = false
diverge (c ∷ s) (d ∷ t) = elim (c == d) [ true ↦ diverge s t | false ↦ true ]

-- Then what follows them does not matter to their order.
pub text_le-diverge :
    (s t e f : Text) → diverge s t ≡ true → text_le (s ++ e) (t ++ f) ≡ text_le s t
unfolding text_le
text_le-diverge [] t e f h = cc
text_le-diverge (c ∷ s) [] e f h = cc
text_le-diverge (c ∷ s) (d ∷ t) e f h = ground (arith, text_le-diverge s t e f)
