-- ===== src/Float/Binary64.antt =====
-- The numbers `f64` of sidecar/src and control-plane/src: binary64 of IEEE 754, rounded to the
-- nearest and at a tie to the even number. A finite number is its sign, and a fraction whose
-- denominator is a power of 2.
pub mod Ratio
pub mod Estimates
pub mod Quotient
use ghostcacher.Prelude.{
  ℕ, zero, suc, ◌+◌, ◌-◌, ◌*◌, ◌/◌, ◌%◌, ◌^◌, min, Bool, true, false, not, ◌&&◌, ◌==◌, leb, ltb,
  if◌then◌else◌,
}
use ghostcacher.Float.{Float}

pub data Binary64 : Type 0 where
  nan : Binary64
  infinite : (negative : Bool) → Binary64
  finite : (negative : Bool) (num den : ℕ) → Binary64

unfoldable pub round_half_even : ℕ → ℕ → ℕ
round_half_even n d =
    if ltb (2 * (n % d)) d
    then n / d
    else if ltb d (2 * (n % d))
    then n / d + 1
    else n / d + (n / d) % 2

-- The denominator and the unit of a fraction's last place, for a quotient of 2 ^ 53 or more.
unfoldable pub shrink : ℕ → ℕ → ℕ → ℕ → ℕ × ℕ
shrink zero n d unit = (d, unit)
shrink (suc fuel) n d unit =
    let rest = shrink fuel n (2 * d) (2 * unit) in if leb (2 ^ 53 * d) n then rest else (d, unit)

-- The numerator and the places per 1, for a quotient below 2 ^ 52; the last unit is 2 ^ -1074.
unfoldable pub grow : ℕ → ℕ → ℕ → ℕ → ℕ × ℕ
grow zero n d places = (n, places)
grow (suc fuel) n d places =
    let rest = grow fuel (2 * n) d (2 * places) in if ltb n (2 ^ 52 * d) then rest else (n, places)

unfoldable pub bounded : Bool → ℕ → ℕ → Binary64
bounded negative n d = if leb (2 ^ 1024 * d) n then infinite negative else finite negative n d

-- The number next to a fraction.
unfoldable pub nearest : Bool → ℕ → ℕ → Binary64
nearest negative n d =
    let (e, unit) = shrink 1024 n d 1 in
    let (m, places) = grow 1074 n e 1 in bounded negative (round_half_even m e * unit) places

-- `n as f64`, whose last place is 1 at least.
unfoldable pub of_u64 : ℕ → Binary64
of_u64 n = let (d, unit) = shrink 64 n 1 1 in finite false (round_half_even n d * unit) 1

abbrev xor : Bool → Bool → Bool
xor a b = if a then not b else b

unfoldable pub div : Binary64 → Binary64 → Binary64
div nan y = nan
div x nan = nan
div (infinite s) (infinite t) = nan
div (infinite s) (finite t n d) = infinite (xor s t)
div (finite s n d) (infinite t) = finite (xor s t) 0 1
div (finite s n d) (finite t m e) =
    if m == 0 then if n == 0 then nan else infinite (xor s t) else nearest (xor s t) (n * e) (d * m)

unfoldable pub mul : Binary64 → Binary64 → Binary64
mul nan y = nan
mul x nan = nan
mul (infinite s) (infinite t) = infinite (xor s t)
mul (infinite s) (finite t m e) = if m == 0 then nan else infinite (xor s t)
mul (finite s n d) (infinite t) = if n == 0 then nan else infinite (xor s t)
mul (finite s n d) (finite t m e) = nearest (xor s t) (n * m) (d * e)

-- A difference that is 0 has the sign + but for (-0) - 0.
unfoldable pub sub : Binary64 → Binary64 → Binary64
sub nan y = nan
sub x nan = nan
sub (infinite s) (infinite t) = if xor s t then infinite s else nan
sub (infinite s) (finite t m e) = infinite s
sub (finite s n d) (infinite t) = infinite (not t)
sub (finite s n d) (finite t m e) =
    if xor s t
    then nearest s (n * e + m * d) (d * e)
    else if n * e == m * d
    then finite false 0 1
    else if ltb (m * d) (n * e)
    then nearest s (n * e - m * d) (d * e)
    else nearest (not s) (m * d - n * e) (d * e)

-- The sign of 0 makes no difference.
unfoldable pub le : Binary64 → Binary64 → Bool
le nan y = false
le x nan = false
le (infinite s) (infinite t) = if s then true else not t
le (infinite s) (finite t m e) = s
le (finite s n d) (infinite t) = not t
le (finite s n d) (finite t m e) =
    if s
    then if t then leb (m * d) (n * e) else true
    else if t
    then (n == 0) && (m == 0)
    else leb (n * e) (m * d)

unfoldable pub max : Binary64 → Binary64 → Binary64
max nan y = y
max x nan = x
max x y = if le x y then y else x

unfoldable pub is_nan : Binary64 → Bool
is_nan nan = true
is_nan _ = false

unfoldable pub ceil : Binary64 → Binary64
ceil (finite s n d) = finite s (if s then n / d else (n + (d - 1)) / d) 1
ceil x = x

-- A half is rounded away from 0.
unfoldable pub round : Binary64 → Binary64
round (finite s n d) = finite s ((2 * n + d) / (2 * d)) 1
round x = x

-- `x as uN`, cut off to the type's range; NaN is 0.
unfoldable pub saturate : ℕ → Binary64 → ℕ
saturate last nan = 0
saturate last (infinite s) = if s then 0 else last
saturate last (finite s n d) = if s then 0 else min (n / d) last

abbrev pub binary64 : Float
binary64 = record {
  F64 = Binary64;
  of_u64 = of_u64;
  literal = λ n d. nearest false n (10 ^ d);
  div = div;
  mul = mul;
  sub = sub;
  max = max;
  is_nan = is_nan;
  le = le;
  ceil = ceil;
  round = round;
  as_u32 = saturate (2 ^ 32 - 1);
  as_u64 = saturate (2 ^ 64 - 1);
}
