-- ===== src/Interceptor/Policy/Port.antt =====
-- The port in the address of a pod.
use ghostcacher.Prelude.{
  ℕ, zero, suc, ◌+◌, ◌-◌, ◌*◌, ◌/◌, ◌%◌, ◌^◌, ◌<◌, ◌≤◌, ◌≡◌, refl, sym, subst, ap, ◌∙◌, [], ◌∷◌,
  ◌++◌, All, All-append, ltb, ltb→lt, arith, Bool-cases, inl, inr, if◌then◌else◌,
}
use native.Mathlib.Nat.{pow-suc}
use ghostcacher.Text.{Text, lit}
use ghostcacher.Config.{SidecarConfig}
use ghostcacher.Interceptor.Policy.{digits, pod_url}

-- The number that decimal digits say, after those that said acc.
abbrev pub said : ℕ → Text → ℕ
said acc [] = acc
said acc (c ∷ cs) = said (acc * 10 + (c - 48)) cs

abbrev pub IsDigit : ℕ → Type 0
IsDigit c = (48 ≤ c) × (c ≤ 57)

said-append :
    (acc : ℕ) (xs : Text) (c : ℕ) → said acc (xs ++ (c ∷ [])) ≡ said acc xs * 10 + (c - 48)
said-append acc [] c = refl
said-append acc (x ∷ xs) c = said-append (acc * 10 + (x - 48)) xs c

said-digits : (fuel n : ℕ) → n < 10 ^ fuel → said 0 (digits fuel n) ≡ n
unfolding digits
said-digits zero n h = omega (arith, h)
said-digits (suc fuel) n h =
    let rest = digits fuel (n / 10) ++ ((48 + n % 10) ∷ []) in
    elim (Bool-cases (ltb n 10)) [
      | inl small ↦ ap (λ b. said 0 (if b then (48 + n) ∷ [] else rest)) small ∙ omega arith
      | inr large ↦
          ap (λ b. said 0 (if b then (48 + n) ∷ [] else rest)) large
          ∙ said-append 0 (digits fuel (n / 10)) (48 + n % 10)
          ∙ ap (λ m. m * 10 + (48 + n % 10 - 48))
              (said-digits fuel (n / 10) (omega (arith, h, pow-suc 10 fuel)))
          ∙ omega arith
    ]

digits-IsDigit : (fuel n : ℕ) → All IsDigit (digits fuel n)
unfolding digits
digits-IsDigit zero n = tt
digits-IsDigit (suc fuel) n =
    let rest = digits fuel (n / 10) ++ ((48 + n % 10) ∷ []) in
    elim (Bool-cases (ltb n 10)) [
      | inl small ↦
          subst (λ b. All IsDigit (if b then (48 + n) ∷ [] else rest)) (sym small)
            (((omega arith, omega (arith, ltb→lt n 10 small)), tt))
      | inr large ↦
          subst (λ b. All IsDigit (if b then (48 + n) ∷ [] else rest)) (sym large)
            (All-append IsDigit (digits fuel (n / 10)) ((48 + n % 10) ∷ [])
              (digits-IsDigit fuel (n / 10)) ((omega arith, omega arith), tt))
    ]

-- The address of a pod has the scheme, the pod's IP, a colon and the configured port in decimal
-- digits that say the port, for every port of 64 bits, and then the configured path.
pub pod_url_ok :
    (pod_ip : Text) (cfg : SidecarConfig)
    → cfg.pod_port < 2 ^ 64
    → (port : Text) × (said 0 port ≡ cfg.pod_port)
      × All IsDigit port
      × (pod_url pod_ip cfg ≡ lit "http://" ++ (pod_ip ++ (lit ":" ++ (port ++ cfg.pod_path))))
unfolding pod_url
pod_url_ok pod_ip cfg h = (
  digits 20 cfg.pod_port,
  said-digits 20 cfg.pod_port (omega (arith, h)),
  digits-IsDigit 20 cfg.pod_port,
  refl,
)
