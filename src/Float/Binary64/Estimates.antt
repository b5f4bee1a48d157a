-- ===== src/Float/Binary64/Estimates.antt =====
-- The two estimates that divide by 3.8 and multiply by 0.04, as the exact binary64 computes them.
use native.Mathlib.Nat.{div-eq_of_lt-le, div-one}
use ghostcacher.Prelude.{
  ℕ, ◌+◌, ◌*◌, ◌/◌, ◌^◌, ◌≤◌, ◌<◌, ◌≡◌, refl, false, arith, inl, inr, min, ◌-◌, leb, Bool-cases,
}
use ghostcacher.Float.Binary64.{
  Binary64, finite, nearest, of_u64, div, mul, ceil, round, saturate, binary64,
}
use ghostcacher.Float.Binary64.Ratio.{Near, nearest_lem, of_u64_exact}

literal_3_8 : nearest false 38 10 ≡ finite false 8556839292003942 2251799813685248
unfolding nearest ghostcacher.Float.Binary64.round_half_even ghostcacher.Float.Binary64.shrink
    ghostcacher.Float.Binary64.grow ghostcacher.Float.Binary64.bounded
literal_3_8 = refl

literal_0_04 : nearest false 4 100 ≡ finite false 5764607523034235 144115188075855872
unfolding nearest ghostcacher.Float.Binary64.round_half_even ghostcacher.Float.Binary64.shrink
    ghostcacher.Float.Binary64.grow ghostcacher.Float.Binary64.bounded
literal_0_04 = refl

scaled : (a b k : ℕ) → a ≤ b → a * k ≤ b * k
scaled a b k h = grind arith

-- The quotient by 3.8 has ten places per 1 at least.
quotient_fine : (n k m : ℕ) → n < 2 ^ 48 → Near (n * 2251799813685248) 8556839292003942 k m → 10 ≤ k
quotient_fine n k m small near = elim near.fine [
  | inl f ↦ elim (Bool-cases (leb 10 k)) [
    | inl h ↦ ground arith
    | inr h ↦ let few : n * k ≤ n * 9 = grind arith in absurd (omega (arith, f, few))
  ]
  | inr f ↦ omega arith
]

-- The quotient by 3.8, up to half a place, and its ceiling.
ceil_lem :
    (n k m : ℕ)
    → n < 2 ^ 48
    → Near (n * 2251799813685248) 8556839292003942 k m
    → (m + (k - 1)) / k ≡ (5 * n + 18) / 19
ceil_lem n k m small near =
    let c = (5 * n + 18) / 19 in
    let low = scaled (5 * n) (19 * c) k (omega arith) in
    let high = scaled (19 * c) (5 * n + 18) k (omega arith) in
    let fine = quotient_fine n k m small near in
    div-eq_of_lt-le {k = c} k (omega (arith, near.below, near.small))
      (omega (arith, near.above, near.small))

-- The estimate's arithmetic: ceiling of the quotient by 3.8, cut off to `u32`.
pub ceil-div_lem :
    (n : ℕ)
    → n < 2 ^ 48
    → saturate (2 ^ 32 - 1) (ceil (div (of_u64 n) (nearest false 38 10)))
      ≡ min ((5 * n + 18) / 19) (2 ^ 32 - 1)
unfolding div ceil saturate
ceil-div_lem n small =
    let (k, m, e, pos, near) =
      nearest_lem false (n * 2251799813685248) (1 * 8556839292003942) (omega arith) (omega arith) in
    rw (of_u64_exact n (omega arith)) (
      rw literal_3_8
        (rw e (rw (div-one ((m + (k - 1)) / k)) (rw (ceil_lem n k m small near) refl))))

-- The product with 0.04 has 64 places per 1 at least.
product_fine :
    (n k m : ℕ) → n < 2 ^ 46 → Near (n * 5764607523034235) 144115188075855872 k m → 64 ≤ k
product_fine n k m small near = elim near.fine [
  | inl f ↦ elim (Bool-cases (leb 64 k)) [
    | inl h ↦ ground arith
    | inr h ↦ let few : n * k ≤ n * 63 = grind arith in absurd (omega (arith, f, few))
  ]
  | inr f ↦ omega arith
]

-- The product with 0.04, up to half a place, to the next integer.
round_lem :
    (n k m : ℕ)
    → n < 2 ^ 46
    → Near (n * 5764607523034235) 144115188075855872 k m
    → (2 * m + k) / (2 * k) ≡ (n + 12) / 25
round_lem n k m small near =
    let c = (n + 12) / 25 in
    let low = scaled (25 * c) (n + 12) k (omega arith) in
    let high = scaled (n + 12) (25 * c + 24) k (omega arith) in
    let fine = product_fine n k m small near in
    div-eq_of_lt-le {k = c} (2 * k) (omega (arith, near.above, near.below, near.small))
      (omega (arith, near.above, near.below, near.small))

-- The arithmetic of the saved time: the product with 0.04, to the next integer.
pub round-mul_lem :
    (last n : ℕ)
    → n < 2 ^ 46
    → saturate last (round (mul (of_u64 n) (nearest false 4 100))) ≡ min ((n + 12) / 25) last
unfolding mul round saturate
round-mul_lem last n small =
    let (k, m, e, pos, near) =
      nearest_lem false (n * 5764607523034235) (1 * 144115188075855872) (omega arith)
        (omega arith) in
    rw (of_u64_exact n (omega arith)) (
      rw literal_0_04
        (rw e (rw (div-one ((2 * m + k) / (2 * k))) (rw (round_lem n k m small near) refl))))
