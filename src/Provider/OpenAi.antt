-- ===== src/Provider/OpenAi.antt =====
-- sidecar/src/provider.rs: what the adapter changes in a body for OpenAI.
use ghostcacher.Prelude.{
  ◌≡◌, refl, sym, ap, ◌∙◌, inl, inr, Option-cases, false, Option, none, some, true,
}
use ghostcacher.Text.{Text, lit, text_eq}
use ghostcacher.World.{is_some}
use ghostcacher.Prelude.{Bool}
use ghostcacher.Json.{num, str, arr, null, Value, Fields, bool, obj, lookup, insert, get, index_set}
use ghostcacher.Json.Laws.{lookup-insert}
use ghostcacher.Provider.{mark_openai}

-- The field that a request to OpenAI carries after the adapter: its own `store`, or `true`.
abbrev pub store_or_true : Option Value → Value
store_or_true none = bool true
store_or_true (some v) = v

-- For a body that is an object the adapter does not panic; `store` is then what the request set it
-- to, or `true`, and every other field is kept.
pub get-mark_openai :
    (fs : Fields)
    → (out : Value) × (mark_openai (obj fs) ≡ some out)
      × (get (lit "store") out ≡ some (store_or_true (get (lit "store") (obj fs))))
      × ((k : Text) → text_eq (lit "store") k ≡ false → get k out ≡ get k (obj fs))
unfolding mark_openai get index_set text_eq
get-mark_openai fs = elim (Option-cases (lookup (lit "store") fs)) [
  | inl e ↦ (
    obj (insert (lit "store") (bool true) fs),
    rw (e, mark_openai) refl,
    lookup-insert (lit "store") (lit "store") (bool true) fs
        ∙ ap (λ o. some (store_or_true o)) (sym e),
    λ k ne. lookup-insert (lit "store") k (bool true) fs ∙ rw (ne) refl,
  )
  | inr (v, e) ↦
      (obj fs, rw (e, mark_openai) refl, e ∙ ap (λ o. some (store_or_true o)) (sym e), λ k ne. refl)
]

-- The values that take a new field.
abbrev pub takes_fields : Value → Bool
takes_fields null = true
takes_fields (obj fs) = true
takes_fields _ = false

mark_openai-obj : (fs : Fields) → is_some (mark_openai (obj fs)) ≡ true
mark_openai-obj fs = let (out, marked, stored, kept) = get-mark_openai fs in ap is_some marked

-- The adapter panics exactly on the values that are neither objects nor `null`: a body that is an
-- array, a text, a number or a Boolean.
pub mark_openai_panics : (json : Value) → is_some (mark_openai json) ≡ takes_fields json
unfolding mark_openai get index_set
mark_openai_panics null = refl
mark_openai_panics (bool b) = refl
mark_openai_panics (num n) = refl
mark_openai_panics (str t) = refl
mark_openai_panics (arr vs) = refl
mark_openai_panics (obj fs) = mark_openai-obj fs
