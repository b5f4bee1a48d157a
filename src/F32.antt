-- ===== src/F32.antt =====
-- `f32` values as their bit patterns, and `partial_cmp` on them.
use ghostcacher.Prelude.{ℕ, ◌%◌, ◌^◌, Bool, not, leb, ltb, arith, if◌then◌else◌}
use ghostcacher.Prelude.Sort.{IsTotal}
use ghostcacher.Prelude.Int.{ℤ, pos, ltb_ℤ, sub_ℕ}

abbrev pub F32 : Type 0
F32 = ℕ

-- All but the sign.
abbrev pub magnitude : F32 → ℕ
magnitude x = x % 2 ^ 31

unfoldable pub is_nan : F32 → Bool
is_nan x = ltb 0x7f80_0000 (magnitude x)

-- The place of a number that is not NaN in the order; both zeros have the place 0.
unfoldable pub f32_rank : F32 → ℤ
f32_rank x = if leb (2 ^ 31) (x % 2 ^ 32) then sub_ℕ 0 (magnitude x) else pos (magnitude x)

-- `a.partial_cmp(&b)` is not `Greater`, for numbers that are not NaN.
unfoldable pub f32_le : F32 → F32 → Bool
unfolding f32_rank
f32_le a b = not (ltb_ℤ (f32_rank b) (f32_rank a))

pub f32_le-IsTotal : IsTotal f32_le
unfolding f32_le
f32_le-IsTotal = record { total = λ a b h. ground arith }

-- 0.5
abbrev pub half : F32
half = 0x3f00_0000
