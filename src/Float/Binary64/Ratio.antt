-- ===== src/Float/Binary64/Ratio.antt =====
-- How far the numbers of Binary64 are from the fractions that they round.
use native.Mathlib.Nat.{pow-suc, mod-lt, div-add-mod'}
use ghostcacher.Prelude.{
  ℕ, zero, suc, ◌+◌, ◌*◌, ◌/◌, ◌%◌, ◌^◌, ◌≤◌, ◌<◌, ◌≡◌, refl, Bool, false, ltb, leb, arith, ◌⊎◌,
  inl, inr, ap, subst, Bool-cases, ltb→lt, if◌then◌else◌,
}
use ghostcacher.Float.Binary64.{finite, round_half_even, shrink, grow, bounded, nearest, of_u64}

-- The fraction m / k is within half a place of n / d.
pub record Near (n d k m : ℕ) : Type 0 where
  pub below : 2 * (n * k) ≤ 2 * (m * d) + d
  pub above : 2 * (m * d) ≤ 2 * (n * k) + d
  -- There are 2 ^ 52 places below it, or the last place is the least one.
  pub fine : (2 ^ 52 * d ≤ n * k) ⊎ (2 ^ 1074 ≤ k)
  pub small : n * k < 2 ^ 53 * d

-- The number q + a is next to a fraction n / d with the quotient q and the rest r.
Chosen : ℕ → ℕ → ℕ → ℕ → Type 0
Chosen m q r d = ((m ≡ q) × (2 * r ≤ d)) ⊎ ((m ≡ suc q) × (d ≤ 2 * r))

parity-Chosen :
    (b q r d : ℕ)
    → b < 2
    → Chosen (if ltb (2 * r) d then q else if ltb d (2 * r) then q + 1 else q + b) q r d
unfolding Chosen
parity-Chosen zero q r d h = ground arith
parity-Chosen (suc b) q r d h = ground arith

round_half_even-Chosen : (n d : ℕ) → Chosen (round_half_even n d) (n / d) (n % d) d
unfolding round_half_even
round_half_even-Chosen n d =
    parity-Chosen ((n / d) % 2) (n / d) (n % d) d (mod-lt (n / d) (omega arith))

Chosen-near :
    (m q r d : ℕ)
    → r < d
    → Chosen m q r d
    → (2 * (q * d + r) ≤ 2 * (m * d) + d) × (2 * (m * d) ≤ 2 * (q * d + r) + d)
unfolding Chosen
Chosen-near m q r d less (inl (e, h)) = rw e (ground arith)
Chosen-near m q r d less (inr (e, h)) = rw e (ground arith)

round_half_even-near :
    (n d : ℕ)
    → 0 < d
    → (2 * n ≤ 2 * (round_half_even n d * d) + d) × (2 * (round_half_even n d * d) ≤ 2 * n + d)
round_half_even-near n d pos =
    subst
      (λ x.
        (2 * x ≤ 2 * (round_half_even n d * d) + d) × (2 * (round_half_even n d * d) ≤ 2 * x + d))
      (div-add-mod' n d)
      (Chosen-near (round_half_even n d) (n / d) (n % d) d (mod-lt n pos)
        (round_half_even-Chosen n d))

shrink-small : (fuel n d unit : ℕ) → n < 2 ^ 53 * d → shrink fuel n d unit ≡ (d, unit)
unfolding shrink
shrink-small zero n d unit h = refl
shrink-small (suc fuel) n d unit h = ground arith

doubled : (n p : ℕ) → n * (2 * p) ≡ 2 * (n * p)
doubled n p = omega arith

power : (fuel places k : ℕ) → 2 ^ fuel * (2 * places) ≤ k → 2 ^ suc fuel * places ≤ k
power fuel places k h = rw (pow-suc 2 fuel) (omega arith)

grow_lem :
    (fuel n a d places : ℕ)
    → 0 < places
    → a ≡ n * places
    → n * places < 2 ^ 53 * d
    → (k : ℕ) × (grow fuel a d places ≡ (n * k, k))
      × (0 < k)
      × ((2 ^ 52 * d ≤ n * k) ⊎ (2 ^ fuel * places ≤ k))
      × (n * k < 2 ^ 53 * d)
unfolding grow
grow_lem zero n a d places pos e small =
    (places, ap (λ x. (x, places)) e, pos, inr (omega arith), small)
grow_lem (suc fuel) n a d places pos e small = elim (Bool-cases (ltb a (2 ^ 52 * d))) [
  | inl more ↦
      let twice = doubled n places in
      let (k, g, kpos, fine, less) =
        grow_lem fuel n (2 * a) d (2 * places) (omega arith) (omega (arith, twice))
          (omega (arith, twice, ltb→lt a (2 ^ 52 * d) more)) in
      (k, rw more g, kpos, elim fine [ inl f ↦ inl f | inr f ↦ inr (power fuel places k f) ], less)
  | inr done ↦ (places, rw done (ap (λ x. (x, places)) e), pos, inl (ground arith), small)
]

capped : (n d m : ℕ) → 0 < d → n < 2 ^ 53 * d → 2 * (m * d) ≤ 2 * n + d → m ≤ 2 ^ 53
capped n d m pos small near = grind arith

leb-false : {a b : ℕ} → b < a → leb a b ≡ false
leb-false {a} {b} h = ground arith

bounded-finite :
    (negative : Bool) (n d : ℕ) → n ≤ 2 ^ 53 → 0 < d → bounded negative n d ≡ finite negative n d
unfolding bounded
bounded-finite negative n d h pos = rw (leb-false {a = 2 ^ 1024 * d} {b = n} (omega arith)) refl

-- The number next to a fraction that is below 2 ^ 53.
pub nearest_lem :
    (negative : Bool) (n d : ℕ)
    → 0 < d
    → n < 2 ^ 53 * d
    → (k m : ℕ) × (nearest negative n d ≡ finite negative m k) × (0 < k) × Near n d k m
unfolding nearest
nearest_lem negative n d pos small =
    let (k, g, kpos, fine, less) =
      grow_lem 1074 n n d 1 (omega arith) (omega arith) (omega arith) in
    let m = round_half_even (n * k) d in
    let (below, above) = round_half_even-near (n * k) d pos in
    (
      k,
      m,
      rw (shrink-small 1024 n d 1 small) (
          rw g (
            rw
              (bounded-finite negative (m * 1) k (omega (arith, capped (n * k) d m pos less above))
                kpos)
              (ap (λ x. finite negative x k) (omega arith)))),
      kpos,
      record {
        below = below;
        above = above;
        fine = elim fine [ inl f ↦ inl f | inr f ↦ inr (omega arith) ];
        small = less;
      },
    )

exact : (n : ℕ) → round_half_even n 1 * 1 ≡ n
exact n = let (below, above) = round_half_even-near n 1 (omega arith) in omega arith

-- Natural numbers below 2 ^ 53 are exact.
pub of_u64_exact : (n : ℕ) → n < 2 ^ 53 → of_u64 n ≡ finite false n 1
unfolding of_u64
of_u64_exact n h = rw (shrink-small 64 n 1 1 (omega arith)) (ap (λ x. finite false x 1) (exact n))
