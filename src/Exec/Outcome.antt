-- ===== src/Exec/Outcome.antt =====
-- Code that never panics, and code that always comes to a value.
use ghostcacher.Prelude.{◌≡◌, refl, subst, Bool, true, false, Option, none, some}
use ghostcacher.Exec.{
  Exec, Result, ok, err, panic, Error, ◌>>=◌, continue, lift, attempted, or_panic,
}

abbrev pub is_panic : {A : Type 0} → Result A → Bool
is_panic panic = true
is_panic _ = false

abbrev pub is_ok : {A : Type 0} → Result A → Bool
is_ok (ok a) = true
is_ok _ = false

abbrev pub NeverPanics : {S A : Type 0} → Exec S A → Type 0
NeverPanics {S} m = (s : S) → is_panic (m s).0 ≡ false

abbrev pub Succeeds : {S A : Type 0} → Exec S A → Type 0
Succeeds {S} m = (s : S) → is_ok (m s).0 ≡ true

continue-panic :
    {S A B : Type 0} (f : A → Exec S B) (r : Result A × S)
    → is_panic r.0 ≡ false
    → ((a : A) → NeverPanics (f a))
    → is_panic (continue f r).0 ≡ false
continue-panic f (ok a, s) h k = k a s
continue-panic f (err e, s) h k = refl
continue-panic f (panic, s) h k = cc

pub bind-NeverPanics :
    {S A B : Type 0} (m : Exec S A) (f : A → Exec S B)
    → NeverPanics m
    → ((a : A) → NeverPanics (f a))
    → NeverPanics (m >>= f)
unfolding ◌>>=◌
bind-NeverPanics m f h k s = continue-panic f (m s) (h s) k

continue-ok :
    {S A B : Type 0} (f : A → Exec S B) (r : Result A × S)
    → is_ok r.0 ≡ true
    → ((a : A) → Succeeds (f a))
    → is_ok (continue f r).0 ≡ true
continue-ok f (ok a, s) h k = k a s
continue-ok f (err e, s) h k = cc
continue-ok f (panic, s) h k = cc

pub bind-Succeeds :
    {S A B : Type 0} (m : Exec S A) (f : A → Exec S B)
    → Succeeds m
    → ((a : A) → Succeeds (f a))
    → Succeeds (m >>= f)
unfolding ◌>>=◌
bind-Succeeds m f h k s = continue-ok f (m s) (h s) k

-- From each state with a property code comes to a value, in a state with the property.
abbrev pub Safe : {S A : Type 0} → (S → Type 0) → Exec S A → Type 0
Safe {S} P m = (s : S) → P s → (is_ok (m s).0 ≡ true) × P (m s).1

continue-Safe :
    {S A B : Type 0} (P : S → Type 0) (f : A → Exec S B) (r : Result A × S)
    → (is_ok r.0 ≡ true) × P r.1
    → ((a : A) → Safe P (f a))
    → (is_ok (continue f r).0 ≡ true) × P (continue f r).1
continue-Safe P f (ok a, s) (e, p) k = k a s p
continue-Safe P f (err r, s) (e, p) k = cc e
continue-Safe P f (panic, s) (e, p) k = cc e

pub bind-Safe :
    {S A B : Type 0} {P : S → Type 0} (m : Exec S A) (f : A → Exec S B)
    → Safe P m
    → ((a : A) → Safe P (f a))
    → Safe P (m >>= f)
unfolding ◌>>=◌
bind-Safe {P = P} m f h k s p = continue-Safe P f (m s) (h s p) k

pub or_panic-Safe :
    {S A : Type 0} (P : S → Type 0) (o : Option A) {a : A} → o ≡ some a → Safe P (or_panic o)
or_panic-Safe P none e s p = cc
or_panic-Safe P (some b) e s p = (refl, p)

pub lift-NeverPanics : {S A : Type 0} (e : Error) (o : Option A) → NeverPanics {S = S} (lift e o)
lift-NeverPanics e none s = refl
lift-NeverPanics e (some a) s = refl

-- An error that is looked at is a value.
pub attempted-ok :
    {S A : Type 0} (r : Result A × S) → is_panic r.0 ≡ false → is_ok (attempted r).0 ≡ true
attempted-ok (ok a, s) h = refl
attempted-ok (err e, s) h = refl
attempted-ok (panic, s) h = cc

pub is_ok-panic : {A : Type 0} (r : Result A) → is_ok r ≡ true → is_panic r ≡ false
is_ok-panic (ok a) h = refl
is_ok-panic (err e) h = cc
is_ok-panic panic h = cc

pub or_panic-Succeeds :
    {S A : Type 0} (o : Option A) {a : A} → o ≡ some a → Succeeds {S = S} (or_panic o)
or_panic-Succeeds none e s = cc
or_panic-Succeeds (some b) e s = refl

pub outcome :
    {S A : Type 0} (r : Result A × S) → is_ok r.0 ≡ true → (a : A) × (t : S) × (r ≡ (ok a, t))
outcome (ok a, s) h = (a, s, refl)
outcome (err e, s) h = cc
outcome (panic, s) h = cc

pub safely :
    {S A : Type 0} {P : S → Type 0} (m : Exec S A)
    → Safe P m
    → (s : S) → P s
    → (a : A) × (t : S) × (m s ≡ (ok a, t)) × P t
safely {P = P} m h s p =
    let (a, t, e) = outcome (m s) (h s p).0 in (a, t, e, subst (λ r. P r.1) e (h s p).1)
