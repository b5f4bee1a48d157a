-- ===== src/Exec/Frame.antt =====
-- What code leaves alone, however it ends: a relation between the store before it and after it.
use ghostcacher.Prelude.{Option, none, some}
use ghostcacher.Exec.{
  Exec, Result, ok, err, panic, Error, ◌>>=◌, continue, lift, attempt, attempted, or_panic,
}

-- A relation that code can keep step by step.
pub record IsFrame {S : Type 0} (R : S → S → Type 0) : Type 0 where
  pub stays : (s : S) → R s s
  pub goes_on : {s t u : S} → R s t → R t u → R s u

abbrev pub Keeps : {S A : Type 0} → (S → S → Type 0) → Exec S A → Type 0
Keeps {S} R m = (s : S) → R s (m s).1

module _ {S : Type 0} (R : S → S → Type 0) (frame : IsFrame R) where
  continue-Keeps :
      {A B : Type 0} (f : A → Exec S B) (r : Result A × S) (s : S)
      → R s r.1
      → ((a : A) → Keeps R (f a))
      → R s (continue f r).1
  continue-Keeps f (ok a, t) s h k = frame.goes_on h (k a t)
  continue-Keeps f (err e, t) s h k = h
  continue-Keeps f (panic, t) s h k = h

  pub bind-Keeps :
      {A B : Type 0} (m : Exec S A) (f : A → Exec S B)
      → Keeps R m
      → ((a : A) → Keeps R (f a))
      → Keeps R (m >>= f)
  unfolding ◌>>=◌
  bind-Keeps m f h k s = continue-Keeps f (m s) s (h s) k

  pub lift-Keeps : {A : Type 0} (e : Error) (o : Option A) → Keeps {A = A} R (lift e o)
  lift-Keeps e none s = frame.stays s
  lift-Keeps e (some a) s = frame.stays s

  pub or_panic-Keeps : {A : Type 0} (o : Option A) → Keeps {A = A} R (or_panic o)
  or_panic-Keeps none s = frame.stays s
  or_panic-Keeps (some a) s = frame.stays s

  attempted-Keeps : {A : Type 0} (r : Result A × S) (s : S) → R s r.1 → R s (attempted r).1
  attempted-Keeps (ok a, t) s h = h
  attempted-Keeps (err e, t) s h = h
  attempted-Keeps (panic, t) s h = h

  pub attempt-Keeps : {A : Type 0} (m : Exec S A) → Keeps R m → Keeps R (attempt m)
  attempt-Keeps m h s = attempted-Keeps (m s) s (h s)
