-- ===== src/Crypto/Sample.antt =====
-- A toy hash that meets the interface, so that theorems about every hash can be applied.
use mathlib.Core.List.{append-nil, append_assoc}
use ghostcacher.Prelude.{
  ℕ, zero, suc, ◌+◌, ◌*◌, ◌/◌, ◌%◌, ◌≡◌, refl, [], ◌∷◌, ◌++◌, length, arith, ltb, if◌then◌else◌,
}
use ghostcacher.Text.{Text, Bytes}
use ghostcacher.Crypto.{Sha256, IsBytes, IsAscii}

-- The first n bytes, filled up with zeros.
abbrev pub pad : ℕ → Bytes → Bytes
pad zero s = []
pad (suc n) [] = 0 ∷ pad n []
pad (suc n) (b ∷ s) = b % 256 ∷ pad n s

pub length-pad : (n : ℕ) (s : Bytes) → length (pad n s) ≡ n
length-pad zero s = refl
length-pad (suc n) [] = omega (arith, length-pad n [])
length-pad (suc n) (b ∷ s) = omega (arith, length-pad n s)

pub pad-IsBytes : (n : ℕ) (s : Bytes) → IsBytes (pad n s)
pad-IsBytes zero s = tt
pad-IsBytes (suc n) [] = (omega arith, pad-IsBytes n [])
pad-IsBytes (suc n) (b ∷ s) = (omega arith, pad-IsBytes n s)

abbrev pub hex_digit : ℕ → ℕ
hex_digit n = if ltb n 10 then 48 + n else 87 + n

abbrev pub hex : Bytes → Text
hex [] = []
hex (b ∷ s) = hex_digit (b / 16) ∷ hex_digit (b % 16) ∷ hex s

pub length-hex : (d : Bytes) → length (hex d) ≡ 2 * length d
length-hex [] = refl
length-hex (b ∷ d) = omega (arith, length-hex d)

pub hex-IsAscii : (d : Bytes) → IsBytes d → IsAscii (hex d)
hex-IsAscii [] h = tt
hex-IsAscii (b ∷ d) h = ground (arith, hex-IsAscii d h.1)

hex_digit-inj : (m n : ℕ) → hex_digit m ≡ hex_digit n → m ≡ n
hex_digit-inj m n e = ground arith

pub hex-inj : (d e : Bytes) → IsBytes d → IsBytes e → hex d ≡ hex e → d ≡ e
hex-inj [] [] hd he p = refl
hex-inj [] (c ∷ e) hd he p = cc
hex-inj (b ∷ d) [] hd he p = cc
hex-inj (b ∷ d) (c ∷ e) hd he p =
    ground (
      arith,
      hex_digit-inj (b / 16) (c / 16),
      hex_digit-inj (b % 16) (c % 16),
      hex-inj d e hd.1 he.1,
    )

abbrev pub toy : Sha256
toy = record {
  State = Bytes;
  init = [];
  update = λ s b. s ++ b;
  finalize = λ s. pad 32 s;
  hex_encode = hex;
  update-nil = λ s. append-nil s;
  update-append = λ s a b. append_assoc s a b;
  length-finalize = λ s. length-pad 32 s;
  finalize-IsBytes = λ s. pad-IsBytes 32 s;
  length-hex_encode = length-hex;
  hex_encode-IsAscii = hex-IsAscii;
  hex_encode-inj = hex-inj;
}
