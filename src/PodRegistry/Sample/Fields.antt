-- ===== src/PodRegistry/Sample/Fields.antt =====
-- The fields of a hash as a list of pairs, of which the first one for a field counts.
use ghostcacher.Prelude.{
  ◌≡◌, refl, ap, ap₂, sym, ◌∙◌, Option, none, some, List, [], ◌∷◌, ◌++◌, false, Bool-cases, inl,
  inr, arith, if◌then◌else◌,
}
use ghostcacher.Text.{Text, text_eq}
use ghostcacher.Text.Laws.{text_eq_iff, text_eq_refl}
use ghostcacher.Hashes.{Sound}

pub text_eq_apart : (f g : Text) → text_eq f g ≡ false → text_eq g f ≡ false
text_eq_apart f g ne = ground (arith, ne, text_eq_iff f g, text_eq_iff g f)

unfoldable pub value_in : Text → List (Text × Text) → Option Text
value_in f [] = none
value_in f ((g, v) ∷ l) = let rest = value_in f l in if text_eq g f then some v else rest

unfoldable pub drop : Text → List (Text × Text) → List (Text × Text)
drop f [] = []
drop f ((g, v) ∷ l) = let rest = drop f l in if text_eq g f then rest else (g, v) ∷ rest

-- Each field once.
unfoldable pub listing : List (Text × Text) → List (Text × Text)
unfolding drop
listing [] = []
listing ((f, v) ∷ l) = (f, v) ∷ drop f (listing l)

pub value_in_same : (f v : Text) (l : List (Text × Text)) → value_in f ((f, v) ∷ l) ≡ some v
unfolding value_in
value_in_same f v l = rw (text_eq_refl f) refl

pub value_in_other :
    (f g v : Text) (l : List (Text × Text))
    → text_eq f g ≡ false
    → value_in g ((f, v) ∷ l) ≡ value_in g l
unfolding value_in
value_in_other f g v l ne = rw ne refl

pub value_in-drop :
    (f g : Text) (l : List (Text × Text))
    → value_in g (drop f l) ≡ (if text_eq f g then none else value_in g l)
unfolding value_in drop
value_in-drop f g [] = ground arith
value_in-drop f g ((j, v) ∷ l) =
    ground (arith, value_in-drop f g l, text_eq_iff f g, text_eq_iff j f, text_eq_iff j g)

-- A listing of one list is one of another that agrees with it on the fields other than f.
Sound-drop :
    (f : Text) (value other : Text → Option Text) (l : List (Text × Text))
    → ((g : Text) → text_eq f g ≡ false → other g ≡ value g)
    → Sound value l
    → Sound other (drop f l)
unfolding drop
Sound-drop f value other [] agree sound = tt
Sound-drop f value other ((g, v) ∷ l) agree (here, rest) = elim (Bool-cases (text_eq g f)) [
  | inl same ↦ rw same (Sound-drop f value other l agree rest)
  | inr ne ↦ rw ne (agree g (text_eq_apart g f ne) ∙ here, Sound-drop f value other l agree rest)
]

pub listing-Sound : (l : List (Text × Text)) → Sound (λ f. value_in f l) (listing l)
unfolding listing value_in
listing-Sound [] = tt
listing-Sound ((f, v) ∷ l) = (
  rw (text_eq_refl f) refl,
  Sound-drop f (λ g. value_in g l) _ (listing l) (λ g ne. rw ne refl) (listing-Sound l),
)

-- Where a pair stands in a list.
abbrev pub Within : Text → Text → List (Text × Text) → Type 0
Within f v l =
    (earlier : List (Text × Text)) × (later : List (Text × Text)) × (l
      ≡ earlier ++ ((f, v) ∷ later))

Within-skip :
    (f v : Text) (p : Text × Text) (l : List (Text × Text)) → Within f v l → Within f v (p ∷ l)
Within-skip f v p l (earlier, later, e) = (p ∷ earlier, later, ap (λ x. p ∷ x) e)

drop-append : (g : Text) (xs ys : List (Text × Text)) → drop g (xs ++ ys) ≡ drop g xs ++ drop g ys
unfolding drop
drop-append g [] ys = refl
drop-append g ((f, v) ∷ xs) ys = ground (arith, drop-append g xs ys)

Within-drop :
    (f v g : Text) (l : List (Text × Text))
    → text_eq f g ≡ false
    → Within f v l
    → Within f v (drop g l)
unfolding drop
Within-drop f v g l ne (earlier, later, e) = (
  drop g earlier,
  drop g later,
  ap (drop g) e ∙ drop-append g earlier ((f, v) ∷ later) ∙ rw ne refl,
)

pub listing-Within :
    (f v : Text) (l : List (Text × Text)) → value_in f l ≡ some v → Within f v (listing l)
unfolding listing value_in
listing-Within f v [] e = cc
listing-Within f v ((g, u) ∷ l) e = elim (Bool-cases (text_eq g f)) [
  | inl same ↦ (
    [],
    drop g (listing l),
    ap₂ (λ j x. (j, x) ∷ drop g (listing l)) ((text_eq_iff g f).0 same) (ground (arith, e, same)),
  )
  | inr ne ↦
      Within-skip f v (g, u) (drop g (listing l))
        (Within-drop f v g (listing l) (text_eq_apart g f ne)
          (listing-Within f v l (sym (rw ne refl) ∙ e)))
]
