-- ===== src/Prelude/Sort.antt =====
-- `slice::sort` and `slice::sort_by`: a stable sort, as insertion sort over a Boolean order.
use mathlib.Core.Path.{◌≡◌, refl, subst, ap, ap₂, ◌∙◌}
use mathlib.Core.Logic.{∥∥₁_elim, inl, inr}
use mathlib.Core.Bool.{Bool, true, false}
use mathlib.Core.List.{List, [], ◌∷◌, map, Perm, Permᴰ, is_set}
use mathlib.Core.List.Perm
use native.Mathlib.Omega.{arith}
use ghostcacher.Prelude.Lists.{All}
use ghostcacher.Prelude.Tests.{if◌then◌else◌, Bool-cases}

module _ {ℓ} {A : Type ℓ} (le : A → A → Bool) where
  -- Behind all that are not greater, which keeps the sort stable.
  unfoldable pub insert : A → List A → List A
  insert x [] = x ∷ []
  insert x (y ∷ ys) = if le x y then x ∷ y ∷ ys else y ∷ insert x ys

  unfoldable pub sort : List A → List A
  unfolding insert
  sort [] = []
  sort (x ∷ xs) = insert x (sort xs)

  insert-perm : (x : A) (ys : List A) → Perm (insert x ys) (x ∷ ys)
  unfolding insert
  insert-perm x [] = Perm.refl (x ∷ [])
  insert-perm x (y ∷ ys) = elim (Bool-cases (le x y)) [
    | inl e ↦ rw e (Perm.refl (x ∷ y ∷ ys))
    | inr e ↦ rw e (Perm.trans (Perm.cons y (insert-perm x ys)) (Perm.swap x y ys))
  ]

  pub sort-perm : (xs : List A) → Perm (sort xs) xs
  unfolding sort
  sort-perm [] = Perm.refl []
  sort-perm (x ∷ xs) = Perm.trans (insert-perm x (sort xs)) (Perm.cons x (sort-perm xs))

  -- Each element is at most the next.
  abbrev pub IsSorted : List A → Type 0
  IsSorted [] = Unit
  IsSorted (x ∷ []) = Unit
  IsSorted (x ∷ y ∷ ys) = (le x y ≡ true) × IsSorted (y ∷ ys)

  -- What holds of the sorted elements held of them before.
  insert-All {κ} : (P : A → Type κ) (x : A) (ys : List A) → All P (insert x ys) → P x × All P ys
  unfolding insert
  insert-All P x [] (h, k) = (h, tt)
  insert-All P x (y ∷ ys) all = elim (Bool-cases (le x y)) [
    | inl small ↦ subst (λ b. All P (if b then x ∷ y ∷ ys else y ∷ insert x ys)) small all
    | inr large ↦
        let (here, rest) =
          subst (λ b. All P (if b then x ∷ y ∷ ys else y ∷ insert x ys)) large all in
        let (h, k) = insert-All P x ys rest in (h, (here, k))
  ]

  pub sort-All {κ} : (P : A → Type κ) (xs : List A) → All P (sort xs) → All P xs
  unfolding sort
  sort-All P [] all = tt
  sort-All P (x ∷ xs) all = let (h, k) = insert-All P x (sort xs) all in (h, sort-All P xs k)

  IsSorted-skip :
      ((a b c : A) → le a b ≡ true → le b c ≡ true → le a c ≡ true)
      → (x y : A) (ys : List A) → le x y ≡ true
      → IsSorted (y ∷ ys)
      → IsSorted (x ∷ ys)
  IsSorted-skip trans x y [] first rest = tt
  IsSorted-skip trans x y (z ∷ zs) first (next, rest) = (trans x y z first next, rest)

  -- The first of sorted elements is at most each.
  pub IsSorted-least :
      ((a b c : A) → le a b ≡ true → le b c ≡ true → le a c ≡ true)
      → (x : A) (ys : List A) → IsSorted (x ∷ ys)
      → All (λ y. le x y ≡ true) ys
  IsSorted-least trans x [] s = tt
  IsSorted-least trans x (y ∷ ys) (first, rest) =
      (first, IsSorted-least trans x ys (IsSorted-skip trans x y ys first rest))

-- `Ord::cmp`, seen through its Boolean `≤`.
pub record IsTotal {ℓ} {A : Type ℓ} (le : A → A → Bool) : Type ℓ where
  pub total : (a b : A) → le a b ≡ false → le b a ≡ true

pub record IsLinear {ℓ} {A : Type ℓ} (le : A → A → Bool) : Type ℓ where
  pub total : (a b : A) → le a b ≡ false → le b a ≡ true
  pub transitive : (a b c : A) → le a b ≡ true → le b c ≡ true → le a c ≡ true
  pub antisymmetric : (a b : A) → le a b ≡ true → le b a ≡ true → a ≡ b

module _ {ℓ} {A : Type ℓ} (le : A → A → Bool) (t : IsTotal le) where
  insert-IsSorted : (x : A) (ys : List A) → IsSorted le ys → IsSorted le (insert le x ys)
  unfolding insert
  insert-IsSorted x [] s = tt
  insert-IsSorted x (y ∷ []) s = ground (arith, t.total x y)
  insert-IsSorted x (y ∷ z ∷ ys) s = ground (arith, t.total x y, insert-IsSorted x (z ∷ ys) s.1)

  pub sort-IsSorted : (xs : List A) → IsSorted le (sort le xs)
  unfolding sort
  sort-IsSorted [] = tt
  sort-IsSorted (x ∷ xs) = insert-IsSorted x (sort le xs) (sort-IsSorted xs)

module _ {ℓ} {A : Type ℓ} (le : A → A → Bool) (l : IsLinear le) where
  insert_comm :
      (a b : A) (ys : List A) → insert le a (insert le b ys) ≡ insert le b (insert le a ys)
  unfolding insert
  insert_comm a b [] = ground (arith, l.total a b, l.antisymmetric a b)
  insert_comm a b (y ∷ ys) = ground (
    arith,
    l.total a b,
    l.antisymmetric a b,
    l.transitive a b y,
    l.transitive b a y,
    insert_comm a b ys,
  )

  sort-permᴰ : {xs ys : List A} → Permᴰ xs ys → sort le xs ≡ sort le ys
  unfolding sort
  sort-permᴰ Permᴰ.nil = refl
  sort-permᴰ (Permᴰ.cons {a} {b} e p) = ap₂ (insert le) e (sort-permᴰ p)
  sort-permᴰ (Permᴰ.swap {a} {b} {a'} {b'} {l = l'} p q) =
      insert_comm a b (sort le l') ∙ ap₂ (λ u v. insert le u (insert le v (sort le l'))) q p
  sort-permᴰ (Permᴰ.trans p q) = sort-permᴰ p ∙ sort-permᴰ q

  -- A linear order leaves no trace of the order of the input.
  pub sort_of_perm : IsSet A → (xs ys : List A) → Perm xs ys → sort le xs ≡ sort le ys
  sort_of_perm s xs ys p = ∥∥₁_elim p (is_set s _ _) sort-permᴰ

-- Every element is related to each that follows.
abbrev pub AllPairs {ℓ κ} : {A : Type ℓ} → (A → A → Type κ) → List A → Type κ
AllPairs R [] = Unit
AllPairs R (x ∷ xs) = All (R x) xs × AllPairs R xs

module _ {ℓ κ} {A : Type ℓ} (le : A → A → Bool) (P : A → Type κ) where
  All-insert : (x : A) (xs : List A) → P x → All P xs → All P (insert le x xs)
  unfolding insert
  All-insert x [] p h = (p, tt)
  All-insert x (y ∷ ys) p h = ground (arith, All-insert x ys p h.1)

  pub All-sort : (xs : List A) → All P xs → All P (sort le xs)
  unfolding sort
  All-sort [] h = tt
  All-sort (x ∷ xs) h = All-insert x (sort le xs) h.0 (All-sort xs h.1)

module _ {ℓ κ μ} {A : Type ℓ} {B : Type κ} (le : A → A → Bool) (le' : B → B → Bool) (f : A → B)
    (R : A → A → Type μ) (same : (a b : A) → R a b → le' (f a) (f b) ≡ le a b) where
  insert-map :
      (x : A) (xs : List A) → All (R x) xs → insert le' (f x) (map f xs) ≡ map f (insert le x xs)
  unfolding insert
  insert-map x [] h = refl
  insert-map x (y ∷ ys) h = ground (arith, same x y h.0, insert-map x ys h.1)

  -- Sorting commutes with a map that keeps the order of the pairs that meet.
  pub sort-map : (xs : List A) → AllPairs R xs → sort le' (map f xs) ≡ map f (sort le xs)
  unfolding sort
  sort-map [] h = refl
  sort-map (x ∷ xs) h =
      ap (insert le' (f x)) (sort-map xs h.1) ∙ insert-map x (sort le xs) (All-sort le (R x) xs h.0)
