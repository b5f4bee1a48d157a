-- ===== src/Exec.antt =====
-- Asynchronous functions that reach a store and may fail: what was done before an error stays done,
-- so the store comes back beside the error too. `?` is the bind. The text of an error is not kept.
-- A panic ends the task.
pub mod Outcome
pub mod Frame
use ghostcacher.Prelude.{◌≡◌, refl, ap, sym, Option, none, some, arith}

pub data Error : Type 0 where
  redis_error serde_error start_error : Error

pub data Result {ℓ} (A : Type ℓ) : Type ℓ where
  ok : A → Result A
  err : Error → Result A
  panic : Result A

abbrev pub Exec : Type 0 → Type 0 → Type 0
Exec S A = S → Result A × S

abbrev pub continue : {S A B : Type 0} → (A → Exec S B) → Result A × S → Result B × S
continue f (ok a, s) = f a s
continue f (err e, s) = (err e, s)
continue f (panic, s) = (panic, s)

infixl 5 ◌>>=◌ ◌>>◌
unfoldable pub ◌>>=◌ : {S A B : Type 0} → Exec S A → (A → Exec S B) → Exec S B
◌>>=◌ m f s = continue f (m s)

abbrev pub ◌>>◌ : {S A B : Type 0} → Exec S A → Exec S B → Exec S B
m >> n = m >>= λ _. n

abbrev pub pure : {S A : Type 0} → A → Exec S A
pure a s = (ok a, s)

-- A value of the standard library's or of a crate's `Result`.
abbrev pub lift : {S A : Type 0} → Error → Option A → Exec S A
lift e none s = (err e, s)
lift e (some a) s = (ok a, s)

abbrev pub attempted : {S A : Type 0} → Result A × S → Result (Option A) × S
attempted (ok a, s) = (ok (some a), s)
attempted (err e, s) = (ok none, s)
attempted (panic, s) = (panic, s)

-- The caller looks at the `Result`: `none` is an error.
abbrev pub attempt : {S A : Type 0} → Exec S A → Exec S (Option A)
attempt m s = attempted (m s)

-- An unwrap, or code that may panic.
abbrev pub or_panic : {S A : Type 0} → Option A → Exec S A
or_panic none s = (panic, s)
or_panic (some a) s = (ok a, s)

continue-cases {ℓ} :
    {S A B : Type 0} {P : Type ℓ} (f : A → Exec S B) (r : Result A × S) {b : B} {t : S}
    → continue f r ≡ (ok b, t)
    → ((a : A) (u : S) → r ≡ (ok a, u) → f a u ≡ (ok b, t) → P)
    → P
continue-cases f (ok a, u) h k = k a u refl h
continue-cases f (err e, u) h k = cc
continue-cases f (panic, u) h k = cc

-- A block that ran to its end ran each of its parts to its end.
pub bind-cases {ℓ} :
    {S A B : Type 0} {P : Type ℓ} (m : Exec S A) (f : A → Exec S B) (s : S) {b : B} {t : S}
    → (m >>= f) s ≡ (ok b, t)
    → ((a : A) (u : S) → m s ≡ (ok a, u) → f a u ≡ (ok b, t) → P)
    → P
unfolding ◌>>=◌
bind-cases m f s h k = continue-cases f (m s) h k

pub lift-cases {ℓ} :
    {S A : Type 0} {P : Type ℓ} (e : Error) (o : Option A) (s : S) {a : A} {t : S}
    → lift e o s ≡ (ok a, t)
    → (o ≡ some a → t ≡ s → P)
    → P
lift-cases e none s h k = cc
lift-cases e (some a) s h k = k (ground (arith, h)) (ground (arith, h))

pub pure-cases {ℓ} :
    {S A : Type 0} {P : Type ℓ} {a b : A} {s t : S} → pure a s ≡ (ok b, t) → (b ≡ a → t ≡ s → P) → P
pure-cases h k = k (ground (arith, h)) (ground (arith, h))

-- A step that did not panic had its value.
pub or_panic-cases {ℓ} :
    {A B : Type 0} {P : Type ℓ} (o : Option A) {s t : B} {a : A}
    → or_panic o s ≡ (ok a, t)
    → (o ≡ some a → t ≡ s → P)
    → P
or_panic-cases none h k = cc
or_panic-cases (some a) h k = k (ground (arith, h)) (ground (arith, h))

attempted-cases {ℓ} :
    {S A : Type 0} {P : Type ℓ} (r : Result A × S) {o : Option A} {t : S}
    → attempted r ≡ (ok o, t)
    → ((a : A) → o ≡ some a → r ≡ (ok a, t) → P)
    → ((e : Error) → o ≡ none → r ≡ (err e, t) → P)
    → P
attempted-cases (ok a, s) h k l =
    pure-cases h λ returned at. k a returned (ap (λ u. (ok a, u)) (sym at))
attempted-cases (err e, s) h k l =
    pure-cases h λ returned at. l e returned (ap (λ u. (err e, u)) (sym at))
attempted-cases (panic, s) h k l = cc

-- What was attempted ended with a value or with an error.
pub attempt-cases {ℓ} :
    {S A : Type 0} {P : Type ℓ} (m : Exec S A) (s : S) {o : Option A} {t : S}
    → attempt m s ≡ (ok o, t)
    → ((a : A) → o ≡ some a → m s ≡ (ok a, t) → P)
    → ((e : Error) → o ≡ none → m s ≡ (err e, t) → P)
    → P
attempt-cases m s h k l = attempted-cases (m s) h k l

-- Two ways to say what a command returned.
pub same_ok :
    {S A : Type 0} {a b : A} {s t : S}
    → ◌≡◌ {A = Result A × S} (ok a, s) (ok b, t)
    → (a ≡ b) × (s ≡ t)
same_ok e = ground (arith, e)
