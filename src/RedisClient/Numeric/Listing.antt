-- ===== src/RedisClient/Numeric/Listing.antt =====
-- The list of the loads, where none in Redis is NaN: it does not panic.
use mathlib.Core.Option.{get_or}
use ghostcacher.Prelude.{
  ◌≡◌, refl, sym, ap, subst, ◌∙◌, false, Option, none, some, List, [], ◌∷◌, All, arith,
}
use ghostcacher.Prelude.Sort.{sort}
use ghostcacher.Text.{Text, lit}
use ghostcacher.F32.{F32, f32_le, is_nan, half}
use ghostcacher.Exec.{
  Exec, ok, ◌>>=◌, attempted, continue, Result, err, panic, or_panic, redis_error, bind-cases,
  pure-cases, lift-cases,
}
use ghostcacher.Exec.Frame.{Keeps, IsFrame, bind-Keeps, lift-Keeps, attempt-Keeps, or_panic-Keeps}
use ghostcacher.Exec.Outcome.{is_panic, is_ok-panic, or_panic-Succeeds}
use ghostcacher.Serde.{Serde}
use ghostcacher.World.{World}
use ghostcacher.RedisClient.Panics.{Calm, loads_of-NeverPanics}
use ghostcacher.RedisClient.{
  any_nan, sort_loads, parse_load, read_load, load_or_half, loads_of, list_pod_loads,
}
use ghostcacher.RedisClient.Numeric.{
  IsLoadKey, Numeric, Peaceful, StaysNumeric, StaysNumeric-IsFrame, Same-StaysNumeric, conn-Keeps,
  get-Keeps,
}

module _ (w : World) (serde : Serde) (peaceful : Peaceful w serde) where
  open w use {Store, view}

  abbrev Stays : Store → Store → Type 0
  Stays = StaysNumeric w serde

  frame : IsFrame Stays
  frame = StaysNumeric-IsFrame w serde

  parse_load-Keeps : (val : Option Text) → Keeps Stays (parse_load w serde val)
  unfolding parse_load
  parse_load-Keeps none = lift-Keeps _ frame {A = F32} redis_error none
  parse_load-Keeps (some v) = lift-Keeps _ frame redis_error (serde.parse_f32 v)

  load_or_half-Keeps : (key : Text) → Keeps Stays (load_or_half w serde key)
  unfolding load_or_half read_load
  load_or_half-Keeps key =
      bind-Keeps _ frame _ _
        (attempt-Keeps _ frame _
          (bind-Keeps _ frame _ _ (get-Keeps w serde peaceful key) parse_load-Keeps))
        λ got s. frame.stays s

  loads_of-Keeps : (keys : List Text) → Keeps Stays (loads_of w serde keys)
  unfolding loads_of
  loads_of-Keeps [] = λ s. frame.stays s
  loads_of-Keeps (key ∷ keys) =
      bind-Keeps _ frame _ _ (load_or_half-Keeps key)
        λ load. bind-Keeps _ frame _ _ (loads_of-Keeps keys) λ loads s. frame.stays s

  pub list_pod_loads-StaysNumeric : Keeps Stays (list_pod_loads w serde)
  unfolding list_pod_loads
  list_pod_loads-StaysNumeric = bind-Keeps _ frame _ _ (conn-Keeps w serde peaceful) λ u.
      bind-Keeps _ frame _ _
        (λ s.
          Same-StaysNumeric w serde s _
            (λ j l. peaceful.commands.keys_confined (lit "pod_load:*") j s))
        λ found.
          bind-Keeps _ frame _ _ (loads_of-Keeps found)
            λ loads. or_panic-Keeps _ frame (sort_loads loads)

  parse_load-number :
      (key : Text) (val : Option Text) (s u : Store) {x : F32} {t : Store}
      → IsLoadKey key
      → Numeric w serde s
      → (view s).value key ≡ val
      → parse_load w serde val u ≡ (ok x, t)
      → is_nan x ≡ false
  unfolding parse_load
  parse_load-number key none s u is_load numeric has h = cc
  parse_load-number key (some v) s u is_load numeric has h =
      lift-cases _ _ _ h λ e at. numeric key v _ is_load has e

  -- A load that was read is a number.
  read_load-number :
      (key : Text) (s : Store) {x : F32} {t : Store}
      → IsLoadKey key
      → Numeric w serde s
      → read_load w serde key s ≡ (ok x, t)
      → is_nan x ≡ false
  unfolding read_load
  read_load-number key s is_load numeric h =
      bind-cases _ _ _ h
        λ val s1 e1 h1. parse_load-number key val s s1 is_load numeric (sym (w.get_ok key e1).0) h1

  got-number :
      (r : Result F32 × Store) {got : Option F32} {t : Store}
      → ((x : F32) (u : Store) → r ≡ (ok x, u) → is_nan x ≡ false)
      → attempted r ≡ (ok got, t)
      → is_nan (get_or got half) ≡ false
  unfolding is_nan
  got-number (ok x, u) k h = pure-cases h λ e at. ap (λ o. is_nan (get_or o half)) e ∙ k x u refl
  got-number (err e, u) k h = pure-cases h λ e at. ap (λ o. is_nan (get_or o half)) e
  got-number (panic, u) k h = cc

  load_or_half-number :
      (key : Text) (s : Store) {x : F32} {t : Store}
      → IsLoadKey key
      → Numeric w serde s
      → load_or_half w serde key s ≡ (ok x, t)
      → is_nan x ≡ false
  unfolding load_or_half
  load_or_half-number key s is_load numeric h = bind-cases _ _ _ h λ got s1 e1 h1.
      pure-cases h1 λ returned at.
        ap is_nan returned
        ∙ got-number (read_load w serde key s) (λ x u e. read_load-number key s is_load numeric e)
            e1

  loads_of-any_nan :
      (keys : List Text) (s : Store) {loads : List (Text × F32)} {t : Store}
      → All IsLoadKey keys
      → Numeric w serde s
      → loads_of w serde keys s ≡ (ok loads, t)
      → any_nan loads ≡ false
  unfolding loads_of any_nan
  loads_of-any_nan [] s all numeric h = pure-cases h λ e at. ap any_nan e
  loads_of-any_nan (key ∷ keys) s (this, all) numeric h = bind-cases _ _ _ h λ load s1 e1 h1.
      bind-cases _ _ _ h1 λ loads s2 e2 h2. pure-cases h2 λ returned at.
        let still : Numeric w serde s1 =
          subst (λ (r : Result F32 × Store). Numeric w serde r.1) e1
            (load_or_half-Keeps key s numeric) in
        ap any_nan returned
        ∙ ground (
          arith,
          load_or_half-number key s this numeric e1,
          loads_of-any_nan keys s1 all still e2,
        )

  sort_loads-number :
      (loads : List (Text × F32))
      → any_nan loads ≡ false
      → sort_loads loads ≡ some (sort (λ a b. f32_le a.1 b.1) loads)
  unfolding sort_loads
  sort_loads-number loads e = ground (arith, e)

  sorted-calm :
      (r : Result (List (Text × F32)) × Store)
      → is_panic r.0 ≡ false
      → ((loads : List (Text × F32)) (t : Store) → r ≡ (ok loads, t) → any_nan loads ≡ false)
      → is_panic (continue (λ loads. or_panic (sort_loads loads)) r).0 ≡ false
  sorted-calm (ok loads, t) h k =
      is_ok-panic _
        (or_panic-Succeeds (sort_loads loads) (sort_loads-number loads (k loads t refl)) t)
  sorted-calm (err e, t) h k = refl
  sorted-calm (panic, t) h k = cc

  -- A step that does not panic, and what goes on from its value.
  after-calm :
      {A B : Type 0} (f : A → Exec Store B) (r : Result A × Store)
      → is_panic r.0 ≡ false
      → ((a : A) (t : Store) → r ≡ (ok a, t) → is_panic (f a t).0 ≡ false)
      → is_panic (continue f r).0 ≡ false
  after-calm f (ok a, t) h k = k a t refl
  after-calm f (err e, t) h k = refl
  after-calm f (panic, t) h k = cc

  -- From a state in which no load is NaN, the list of the loads does not panic.
  pub list_pod_loads-calm :
      (calm : Calm w) (s : Store)
      → Numeric w serde s
      → is_panic (list_pod_loads w serde s).0 ≡ false
  unfolding list_pod_loads ◌>>=◌
  list_pod_loads-calm calm s numeric = after-calm _ (w.conn s) (calm.conn_calm s) λ u s1 e1.
      after-calm _ (w.keys (lit "pod_load:*") s1) (calm.keys_calm (lit "pod_load:*") s1)
        λ found s2 e2.
          let still : Numeric w serde s2 =
            subst (λ (r : Result (List Text) × Store). Numeric w serde r.1) e2
              (Same-StaysNumeric w serde s1 _
                (λ j l. peaceful.commands.keys_confined (lit "pod_load:*") j s1)
                (subst (λ (r : Result (Unit {0}) × Store). Numeric w serde r.1) e1
                  (conn-Keeps w serde peaceful s numeric))) in
          sorted-calm (loads_of w serde found s2) (loads_of-NeverPanics w serde calm found s2)
            (λ loads t e. loads_of-any_nan found s2 (peaceful.keys_match e2) still e)
