-- ===== src/Float/Sample.antt =====
-- Numbers for instances of the theorems: fractions that are cut off.
use ghostcacher.Prelude.{ℕ, ◌/◌, ◌*◌, ◌-◌, ◌^◌, false, leb, if◌then◌else◌}
use ghostcacher.Float.{Float}

abbrev pub coarse : Float
coarse = record {
  F64 = ℕ;
  of_u64 = λ n. n;
  literal = λ n d. n / 10 ^ d;
  div = λ a b. a / b;
  mul = λ a b. a * b;
  sub = λ a b. a - b;
  max = λ a b. if leb a b then b else a;
  is_nan = λ a. false;
  le = λ a b. leb a b;
  ceil = λ a. a;
  round = λ a. a;
  as_u32 = λ a. a;
  as_u64 = λ a. a;
}
