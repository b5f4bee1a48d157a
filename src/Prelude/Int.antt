-- ===== src/Prelude/Int.antt =====
-- `i64` values as integers, and the casts and wrapping operations that the program makes on them.
use ghostcacher.Prelude.{ℕ, suc, ◌+◌, ◌-◌, ◌%◌, ◌^◌, ◌<◌, ◌≡◌, Bool, arith, ltb, leb, if◌then◌else◌}

-- `negsuc n` is -(n + 1).
pub data ℤ : Type 0 where
  pos : ℕ → ℤ
  negsuc : ℕ → ℤ

abbrev pub pos_part : ℤ → ℕ
pos_part (pos n) = n
pos_part (negsuc n) = 0

abbrev pub neg_part : ℤ → ℕ
neg_part (pos n) = 0
neg_part (negsuc n) = suc n

abbrev pub ltb_ℤ : ℤ → ℤ → Bool
ltb_ℤ a b = ltb (pos_part a + neg_part b) (pos_part b + neg_part a)

-- The 64-bit pattern of a number, read in two's complement: `n as i64` for a `u64` n.
abbrev pub as_i64 : ℕ → ℤ
as_i64 n = if ltb n (2 ^ 63) then pos n else negsuc (2 ^ 64 - 1 - n)

-- The difference a - b of two natural numbers.
abbrev pub sub_ℕ : ℕ → ℕ → ℤ
sub_ℕ a b = if leb b a then pos (a - b) else negsuc (b - a - 1)

-- `a - b` on `i64`, wrapping: the two differences below have the same remainder.
unfoldable pub sub_i64 : ℤ → ℤ → ℤ
sub_i64 a b = as_i64 ((pos_part a + neg_part b + 2 ^ 65 - (neg_part a + pos_part b)) % 2 ^ 64)

-- The difference of two time stamps does not wrap.
pub sub_i64_pos : (m n : ℕ) → m < 2 ^ 63 → n < 2 ^ 63 → sub_i64 (pos m) (pos n) ≡ sub_ℕ m n
unfolding sub_i64
sub_i64_pos m n h k = ground arith
