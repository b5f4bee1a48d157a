-- ===== src/Text/Utf8.antt =====
-- UTF-8: the encoding of a text determines the text.
use ghostcacher.Prelude.{ℕ, ◌<◌, ◌≡◌, refl, [], ◌∷◌, ◌++◌, All, arith}
use mathlib.Core.List.{append_assoc}
use ghostcacher.Text.{Text, Bytes, IsText, utf8_char, as_bytes}

pub as_bytes-append : (s t : Text) → as_bytes (s ++ t) ≡ as_bytes s ++ as_bytes t
unfolding as_bytes
as_bytes-append [] t = refl
as_bytes-append (c ∷ s) t =
    rw (as_bytes-append s t, append_assoc (utf8_char c) (as_bytes s) (as_bytes t))

-- An ASCII text is its own encoding.
pub as_bytes_ascii : (s : Text) → All (λ c. c < 128) s → as_bytes s ≡ s
unfolding as_bytes
as_bytes_ascii [] h = refl
as_bytes_ascii (c ∷ s) h = ground (arith, as_bytes_ascii s h.1)

utf8_char-inj :
    (c d : ℕ) (xs ys : Bytes)
    → c < 1114112
    → d < 1114112
    → utf8_char c ++ xs ≡ utf8_char d ++ ys
    → (c ≡ d) × (xs ≡ ys)
unfolding utf8_char
utf8_char-inj c d xs ys hc hd e = ground arith

utf8_char-ne-nil : (c : ℕ) (xs : Bytes) → utf8_char c ++ xs ≡ [] → ⊥
unfolding utf8_char
utf8_char-ne-nil c xs e = ground arith

pub as_bytes-inj : (s t : Text) → IsText s → IsText t → as_bytes s ≡ as_bytes t → s ≡ t
unfolding as_bytes
as_bytes-inj [] [] hs ht e = refl
as_bytes-inj [] (d ∷ t) hs ht e = absurd (utf8_char-ne-nil d (as_bytes t) (cc))
as_bytes-inj (c ∷ s) [] hs ht e = absurd (utf8_char-ne-nil c (as_bytes s) e)
as_bytes-inj (c ∷ s) (d ∷ t) hs ht e =
    let p : (c ≡ d) × (as_bytes s ≡ as_bytes t) =
      utf8_char-inj c d (as_bytes s) (as_bytes t) hs.0 ht.0 e in
    cc (p.0, as_bytes-inj s t hs.1 ht.1 p.1)
