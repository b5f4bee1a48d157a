-- ===== src/Provider/Total.antt =====
-- sidecar/src/provider.rs: the bodies for which no adapter panics.
use mathlib.Core.Option
use mathlib.Core.Option.{get_or}
use ghostcacher.Prelude.{
  ◌≡◌, refl, sym, ap, ◌∙◌, Bool, true, Option, none, some, List, inl, inr, Option-cases, ℕ,
}
use ghostcacher.Text.{Text, Bytes, lit, text_eq}
use ghostcacher.Types.{LlmProvider, anthropic, open_ai, bedrock, vertex, self_hosted, PromptBlock}
use ghostcacher.World.{is_some}
use ghostcacher.Json.{
  Value, Items, null, bool, num, arr, obj, str, lookup, get, index_set, SerdeJson, get_mut,
}
use ghostcacher.Json.Laws.{lookup-insert}
use ghostcacher.Provider.{
  last_cacheable_idx, try_adjust_item, try_adjust_array, mark_openai, mark_bedrock, inject_openai,
  inject_bedrock, inject_cache_headers,
}
use ghostcacher.Provider.OpenAi.{takes_fields, mark_openai_panics}
use ghostcacher.Provider.Bedrock.{all_objects, optimized, cache_point, try_adjust_item_ok}

abbrev pub messages_are_objects : Option Value → Bool
messages_are_objects (some (arr ms)) = all_objects ms
messages_are_objects _ = true

-- A request's body: an object or `null`, whose messages, where it has an array of them, are
-- objects.
abbrev pub IsRequest : Value → Type 0
IsRequest json =
    (takes_fields json ≡ true) × (messages_are_objects (get (lit "messages") json) ≡ true)

abbrev Total : {A : Type 0} → Option A → Type 0
Total {A} o = (a : A) × (o ≡ some a)

is_some-Total : {A : Type 0} (o : Option A) → is_some o ≡ true → Total o
is_some-Total none e = cc
is_some-Total (some a) e = (a, refl)

adjusted-Total :
    (k : Text) (f : Items → Option Items) (json : Value) (o : Option Value)
    → get k json ≡ o
    → ((ms : Items) → o ≡ some (arr ms) → Total (f ms))
    → Total (try_adjust_array k f json)
unfolding try_adjust_array
adjusted-Total k f json (some (arr ms)) e h =
    let (us, done) = h ms refl in
    (get_mut k (λ old. arr us) json, rw (e, try_adjust_array) (rw done refl))
adjusted-Total k f json none e h = (json, rw (e, try_adjust_array) refl)
adjusted-Total k f json (some null) e h = (json, rw (e, try_adjust_array) refl)
adjusted-Total k f json (some (bool b)) e h = (json, rw (e, try_adjust_array) refl)
adjusted-Total k f json (some (num n)) e h = (json, rw (e, try_adjust_array) refl)
adjusted-Total k f json (some (str t)) e h = (json, rw (e, try_adjust_array) refl)
adjusted-Total k f json (some (obj fs)) e h = (json, rw (e, try_adjust_array) refl)

pointed-Total :
    (idx : ℕ) (json : Value)
    → messages_are_objects (get (lit "messages") json) ≡ true
    → Total (
        try_adjust_array
          (lit "messages")
          (try_adjust_item idx (index_set (lit "cachePoint") cache_point))
          json)
pointed-Total idx json objects =
    adjusted-Total (lit "messages") _ json (get (lit "messages") json) refl λ ms e.
      let (us, done, pointed) =
        try_adjust_item_ok idx ms (sym (ap messages_are_objects e) ∙ objects) in
      (us, done)

-- The field of the configuration is not that of the messages.
configured :
    (json : Value)
    → takes_fields json ≡ true
    → (v : Value) × (index_set (lit "performanceConfig") optimized json ≡ some v)
      × (get (lit "messages") v ≡ get (lit "messages") json)
unfolding index_set get lookup text_eq
configured null e = (_, refl, refl)
configured (obj fs) e =
    (_, refl, lookup-insert (lit "performanceConfig") (lit "messages") optimized fs)
configured (bool b) e = cc
configured (num n) e = cc
configured (str t) e = cc
configured (arr vs) e = cc

mark_bedrock-Total :
    (blocks : List PromptBlock) (json : Value) → IsRequest json → Total (mark_bedrock blocks json)
unfolding mark_bedrock Option.bind
mark_bedrock-Total blocks json (takes, objects) =
    let (v, set, same) = configured json takes in
    elim (Option-cases (last_cacheable_idx blocks)) [
      | inl e ↦ (v, rw set (rw e refl))
      | inr (idx, e) ↦
          let (out, done) = pointed-Total idx v (ap messages_are_objects same ∙ objects) in
          (out, rw set (rw e done))
    ]

module _ (sj : SerdeJson) where
  -- A body that is no JSON, or a request.
  abbrev pub IsAdaptable : Bytes → Type 0
  IsAdaptable body = (json : Value) → sj.from_slice body ≡ some json → IsRequest json

  pub inject_cache_headers-Total :
      (provider : LlmProvider) (body : Bytes) (blocks : List PromptBlock)
      → IsAdaptable body
      → (adapted : Bytes) × (inject_cache_headers sj provider body blocks ≡ some adapted)
  unfolding inject_cache_headers inject_openai inject_bedrock
  inject_cache_headers-Total anthropic body blocks h = (_, refl)
  inject_cache_headers-Total vertex body blocks h = (_, refl)
  inject_cache_headers-Total self_hosted body blocks h = (_, refl)
  inject_cache_headers-Total open_ai body blocks h = elim (Option-cases (sj.from_slice body)) [
    | inl e ↦ (body, rw (e, inject_openai) refl)
    | inr (json, e) ↦
        let (out, done) =
          is_some-Total (mark_openai json) (mark_openai_panics json ∙ (h json e).0) in
        (get_or (sj.to_vec out) body, rw (e, inject_openai) (rw done refl))
  ]
  inject_cache_headers-Total bedrock body blocks h = elim (Option-cases (sj.from_slice body)) [
    | inl e ↦ (body, rw (e, inject_bedrock) refl)
    | inr (json, e) ↦
        let (out, done) = mark_bedrock-Total blocks json (h json e) in
        (get_or (sj.to_vec out) body, rw (e, inject_bedrock) (rw done refl))
  ]
