-- ===== src/Float/Binary64/Quotient.antt =====
-- A quotient of natural numbers that is at most 1, as binary64 rounds it.
use native.Mathlib.Nat.{mul-one, one-mul}
use ghostcacher.Prelude.{
  ℕ, ◌+◌, ◌*◌, ◌^◌, ◌≤◌, ◌<◌, ◌≡◌, ap₂, false, arith, inl, inr, ◌↔◌, leb, Bool-cases, suc, subst,
  ◌==◌,
}
use ghostcacher.Float.Binary64.{nearest, of_u64, div}
use ghostcacher.Float.Binary64.Ratio.{Near, of_u64_exact}

nonzero : (b : ℕ) → 0 < b → (b == 0) ≡ false
nonzero b pos = ground arith

pub div_lem :
    (a b : ℕ) → 0 < b → a < 2 ^ 53 → b < 2 ^ 53 → div (of_u64 a) (of_u64 b) ≡ nearest false a b
unfolding div
div_lem a b pos small_a small = rw (of_u64_exact a small_a) (
    rw (of_u64_exact b small)
      (rw (nonzero b pos) (ap₂ (λ x y. nearest false x y) (mul-one a) (one-mul b))))

scaled : (a b k : ℕ) → a ≤ b → a * k ≤ b * k
scaled a b k h = grind arith

-- What the fraction m / k says of a and b, of which it is the quotient.
pub record Share (a b k m : ℕ) : Type 0 where
  pub at_most_one : m ≤ k
  pub none_iff : (m ≡ 0) ↔ (a ≡ 0)
  pub all_iff : (m ≡ k) ↔ (a ≡ b)

module _ (a b k m : ℕ) (pos : 0 < b) (small : b < 2 ^ 53) (h : a ≤ b) (near : Near a b k m) where
  at_most_one : m ≤ k
  at_most_one = elim (Bool-cases (leb m k)) [
    | inl e ↦ ground arith
    | inr e ↦
        let big = scaled (suc k) m b (ground arith) in
        absurd (omega (arith, near.above, big, scaled a b k h))
  ]

  nothing : m ≡ 0 → a ≡ 0
  nothing e = elim (Bool-cases (leb a 0)) [
    | inl none ↦ ground arith
    | inr some ↦
        let part = scaled 1 a k (ground arith) in
        let low = subst (λ x. 2 * (a * k) ≤ 2 * (x * b) + b) e near.below in
        elim near.fine [
          | inl f ↦ absurd (omega (arith, f, low, pos))
          | inr f ↦ absurd (omega (arith, f, low, part, small))
        ]
  ]

  nothing_back : a ≡ 0 → m ≡ 0
  nothing_back e = elim (Bool-cases (leb m 0)) [
    | inl none ↦ ground arith
    | inr some ↦
        let part = scaled 1 m b (ground arith) in
        let high = subst (λ x. 2 * (m * b) ≤ 2 * (x * k) + b) e near.above in
        absurd (omega (arith, high, part, pos))
  ]

  everything : m ≡ k → a ≡ b
  everything e = elim (Bool-cases (leb b a)) [
    | inl same ↦ ground arith
    | inr less ↦
        let gap = scaled (suc a) b k (ground arith) in
        let high = subst (λ x. 2 * (x * b) ≤ 2 * (a * k) + b) e near.above in
        let few : k < 2 ^ 52 = omega (arith, gap, high, small) in
        let part = scaled k (2 ^ 52) a (omega (arith, few)) in
        elim near.fine [
          | inl f ↦ absurd (ground (arith, f, part))
          | inr f ↦ absurd (omega (arith, f, few))
        ]
  ]

  everything_back : a ≡ b → m ≡ k
  everything_back e = elim (Bool-cases (leb k m)) [
    | inl same ↦ let one = at_most_one in ground arith
    | inr less ↦
        let gap = scaled (suc m) k b (ground arith) in
        let low = subst (λ x. 2 * (x * k) ≤ 2 * (m * b) + b) e near.below in
        absurd (omega (arith, gap, low, pos))
  ]

  pub Near-Share : Share a b k m
  Near-Share = record {
    at_most_one = at_most_one;
    none_iff = (nothing, nothing_back);
    all_iff = (everything, everything_back);
  }
