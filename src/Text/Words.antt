-- ===== src/Text/Words.antt =====
-- `split_whitespace`, `trim` and `join` with a space.
use ghostcacher.Prelude.{
  ℕ, ◌∙◌, ◌≡◌, refl, true, false, List, [], ◌∷◌, ◌++◌, All, arith, ap, Bool-cases, inl, inr,
}
use ghostcacher.Text.{
  Text, is_whitespace, trim_start, trim_end, trim, word_pieces, split_whitespace, join, drop_empty,
  put_char,
}

abbrev pub NoSpace : Text → Type 0
NoSpace = All (λ c. is_whitespace c ≡ false)

-- A word is a text with no whitespace and at least one character.
abbrev pub IsWord : Text → Type 0
IsWord [] = ⊥
IsWord (c ∷ w) = NoSpace (c ∷ w)

abbrev pub space : Text
space = 32 ∷ []

word_pieces-append :
    (w s : Text) → NoSpace w → word_pieces (w ++ 32 ∷ s) ≡ w ∷ drop_empty (word_pieces s)
unfolding word_pieces is_whitespace
word_pieces-append [] s h = refl
word_pieces-append (c ∷ w) s h = rw h.0 (ap (put_char c) (word_pieces-append w s h.1))

word_pieces_last : (w : Text) → NoSpace w → word_pieces w ≡ w ∷ []
unfolding word_pieces
word_pieces_last [] h = refl
word_pieces_last (c ∷ w) h = rw h.0 (ap (put_char c) (word_pieces_last w h.1))

-- Joining words by a space loses nothing.
pub split_whitespace-join : (ws : List Text) → All IsWord ws → split_whitespace (join space ws) ≡ ws
unfolding split_whitespace join
split_whitespace-join [] h = refl
split_whitespace-join ([] ∷ ws) h = absurd h.0
split_whitespace-join ((c ∷ w) ∷ []) h = rw (word_pieces_last (c ∷ w) h.0)
split_whitespace-join ((c ∷ w) ∷ v ∷ ws) h =
    rw (word_pieces-append (c ∷ w) (join space (v ∷ ws)) h.0)
      (ap (λ (r : List Text). (c ∷ w) ∷ r) (split_whitespace-join (v ∷ ws) h.1))

-- The first piece may be empty; the others are words.
abbrev ArePieces : List Text → Type 0
ArePieces [] = ⊥
ArePieces (w ∷ ws) = NoSpace w × All IsWord ws

drop_empty-IsWord : (ws : List Text) → ArePieces ws → All IsWord (drop_empty ws)
drop_empty-IsWord [] h = absurd h
drop_empty-IsWord ([] ∷ ws) h = h.1
drop_empty-IsWord ((c ∷ w) ∷ ws) h = h

put_char-ArePieces :
    (c : ℕ) (ws : List Text) → is_whitespace c ≡ false → ArePieces ws → ArePieces (put_char c ws)
put_char-ArePieces c [] e h = absurd h
put_char-ArePieces c (w ∷ ws) e h = ((e, h.0), h.1)

word_pieces-ArePieces : (s : Text) → ArePieces (word_pieces s)
unfolding word_pieces
word_pieces-ArePieces [] = (tt, tt)
word_pieces-ArePieces (c ∷ s) = elim (Bool-cases (is_whitespace c)) [
  | inl e ↦ rw e (tt, drop_empty-IsWord (word_pieces s) (word_pieces-ArePieces s))
  | inr e ↦ rw e (put_char-ArePieces c (word_pieces s) e (word_pieces-ArePieces s))
]

pub split_whitespace-IsWord : (s : Text) → All IsWord (split_whitespace s)
unfolding split_whitespace
split_whitespace-IsWord s = drop_empty-IsWord (word_pieces s) (word_pieces-ArePieces s)

word_pieces-trim_end : (s : Text) → word_pieces (trim_end s) ≡ word_pieces s
unfolding word_pieces trim_end
word_pieces-trim_end [] = refl
word_pieces-trim_end (c ∷ s) = ground (arith, word_pieces-trim_end s)

split_whitespace-trim_start : (s : Text) → split_whitespace (trim_start s) ≡ split_whitespace s
unfolding split_whitespace trim_start
split_whitespace-trim_start [] = refl
split_whitespace-trim_start (c ∷ s) = ground (arith, split_whitespace-trim_start s)

-- Trimming changes no word.
pub split_whitespace-trim : (s : Text) → split_whitespace (trim s) ≡ split_whitespace s
unfolding trim
split_whitespace-trim s =
    unfold split_whitespace in
    ap drop_empty (word_pieces-trim_end (trim_start s)) ∙ split_whitespace-trim_start s

-- White space alone.
abbrev pub Spaces : Text → Type 0
Spaces = All (λ c. is_whitespace c ≡ true)

drop_empty-append : (ps d : List Text) → ArePieces ps → drop_empty (ps ++ d) ≡ drop_empty ps ++ d
drop_empty-append [] d h = absurd h
drop_empty-append ([] ∷ ws) d h = refl
drop_empty-append ((c ∷ w) ∷ ws) d h = refl

put_char-append :
    (c : ℕ) (ps d : List Text) → ArePieces ps → put_char c (ps ++ d) ≡ put_char c ps ++ d
put_char-append c [] d h = absurd h
put_char-append c (w ∷ ws) d h = refl

word_pieces-newline :
    (s t : Text) → word_pieces (s ++ 10 ∷ t) ≡ word_pieces s ++ drop_empty (word_pieces t)
unfolding word_pieces is_whitespace
word_pieces-newline [] t = refl
word_pieces-newline (c ∷ s) t = elim (Bool-cases (is_whitespace c)) [
  | inl e ↦
      rw (e, word_pieces-newline s t)
        (ap (λ (l : List Text). [] ∷ l)
          (drop_empty-append (word_pieces s) (drop_empty (word_pieces t))
            (word_pieces-ArePieces s)))
  | inr e ↦
      rw (e, word_pieces-newline s t)
        (put_char-append c (word_pieces s) (drop_empty (word_pieces t)) (word_pieces-ArePieces s))
]

pub split_whitespace-newline :
    (s t : Text) → split_whitespace (s ++ 10 ∷ t) ≡ split_whitespace s ++ split_whitespace t
unfolding split_whitespace
split_whitespace-newline s t =
    ap drop_empty (word_pieces-newline s t)
    ∙ drop_empty-append (word_pieces s) (drop_empty (word_pieces t)) (word_pieces-ArePieces s)

word_pieces-Spaces : (s e : Text) → Spaces e → word_pieces (s ++ e) ≡ word_pieces s
unfolding word_pieces
word_pieces-Spaces [] [] h = refl
word_pieces-Spaces [] (c ∷ e) h = ground (arith, word_pieces-Spaces [] e h.1)
word_pieces-Spaces (c ∷ s) e h = ground (arith, word_pieces-Spaces s e h)

-- White space at the end adds no word.
pub split_whitespace-Spaces :
    (s e : Text) → Spaces e → split_whitespace (s ++ e) ≡ split_whitespace s
unfolding split_whitespace
split_whitespace-Spaces s e h = ap drop_empty (word_pieces-Spaces s e h)
