-- ===== src/Text/Keep.antt =====
-- The operations on texts bring in no character that was not there.
use ghostcacher.Prelude.{
  ℕ, zero, suc, List, [], ◌∷◌, ◌++◌, All, All-append, Bool, true, false, length, ◌-◌, arith,
  Bool-cases, inl, inr, map,
}
use ghostcacher.Text.{
  Text, is_whitespace, trim_start, trim_end, trim, word_pieces, split_whitespace, join, drop_empty,
  put_char, split_from, split, starts_with,
}

module _ (P : ℕ → Type 0) where
  All-trim_start : (s : Text) → All P s → All P (trim_start s)
  unfolding trim_start
  All-trim_start [] h = tt
  All-trim_start (c ∷ s) h = ground (arith, All-trim_start s h.1)

  All-trim_end : (s : Text) → All P s → All P (trim_end s)
  unfolding trim_end
  All-trim_end [] h = tt
  All-trim_end (c ∷ s) h = ground (arith, All-trim_end s h.1)

  pub All-trim : (s : Text) → All P s → All P (trim s)
  unfolding trim
  All-trim s h = All-trim_end (trim_start s) (All-trim_start s h)

  All-put_char : (c : ℕ) (ws : List Text) → P c → All (All P) ws → All (All P) (put_char c ws)
  All-put_char c [] p h = ((p, tt), tt)
  All-put_char c (w ∷ ws) p h = ((p, h.0), h.1)

  All-drop_empty : (ws : List Text) → All (All P) ws → All (All P) (drop_empty ws)
  All-drop_empty [] h = h
  All-drop_empty ([] ∷ ws) h = h.1
  All-drop_empty ((c ∷ w) ∷ ws) h = h

  All-word_pieces : (s : Text) → All P s → All (All P) (word_pieces s)
  unfolding word_pieces
  All-word_pieces [] h = (tt, tt)
  All-word_pieces (c ∷ s) h = elim (Bool-cases (is_whitespace c)) [
    | inl e ↦ rw e (tt, All-drop_empty (word_pieces s) (All-word_pieces s h.1))
    | inr e ↦ rw e (All-put_char c (word_pieces s) h.0 (All-word_pieces s h.1))
  ]

  pub All-split_whitespace : (s : Text) → All P s → All (All P) (split_whitespace s)
  unfolding split_whitespace
  All-split_whitespace s h = All-drop_empty (word_pieces s) (All-word_pieces s h)

  All-branch :
      (b : Bool) (xs ys : List Text)
      → All (All P) xs
      → All (All P) ys
      → All (All P) (elim b [ true ↦ xs | false ↦ ys ])
  All-branch true xs ys hx hy = hx
  All-branch false xs ys hx hy = hy

  All-split_from : (sep : Text) (k : ℕ) (s : Text) → All P s → All (All P) (split_from sep k s)
  unfolding split_from
  All-split_from sep k [] h = (tt, tt)
  All-split_from sep (suc k) (c ∷ s) h = All-split_from sep k s h.1
  All-split_from sep zero (c ∷ s) h =
      All-branch (starts_with sep (c ∷ s)) _ _ (tt, All-split_from sep (length sep - 1) s h.1)
        (All-put_char c (split_from sep zero s) h.0 (All-split_from sep zero s h.1))

  pub All-split : (sep s : Text) → All P s → All (All P) (split sep s)
  unfolding split
  All-split sep s h = All-split_from sep zero s h

  pub All-join : (sep : Text) (ws : List Text) → All P sep → All (All P) ws → All P (join sep ws)
  unfolding join
  All-join sep [] p h = tt
  All-join sep (w ∷ []) p h = h.0
  All-join sep (w ∷ v ∷ ws) p h =
      All-append P w _ h.0 (All-append P sep _ p (All-join sep (v ∷ ws) p h.1))

  pub All-map_append :
      (t : Text) (ws : List Text)
      → All P t
      → All (All P) ws
      → All (All P) (map (λ (w : Text). t ++ w) ws)
  All-map_append t [] p h = tt
  All-map_append t (w ∷ ws) p h = (All-append P t w p h.0, All-map_append t ws p h.1)
