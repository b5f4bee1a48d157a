-- ===== src/Provider.antt =====
-- sidecar/src/provider.rs: the changes to the request body for each provider. `none` is a panic.
pub mod Tests
pub mod Anthropic
pub mod OpenAi
pub mod PassThrough
pub mod Total
pub mod Bedrock
use mathlib.Core.Option
use mathlib.Core.Option.{get_or}
use ghostcacher.Prelude.{
  ℕ, zero, suc, ◌-◌, Bool, true, false, not, Option, none, some, List, [], ◌∷◌, if◌then◌else◌, leb,
  length,
}
use ghostcacher.Text.{Text, Bytes, lit}
use ghostcacher.Types.{
  LlmProvider, anthropic, open_ai, bedrock, vertex, self_hosted, PromptBlock, is_cacheable,
}
use ghostcacher.Json.{
  Value, Items, Fields, null, bool, num, str, arr, obj, nil, cons, end, field, get, get_mut,
  index_set, length_items, SerdeJson,
}

-- `{ "type": "ephemeral" }`
abbrev pub ephemeral : Value
ephemeral = obj (field (lit "type") (str (lit "ephemeral")) end)

-- The content block that takes the place of a text.
abbrev pub cached_text : Text → Value
cached_text text = arr (
    cons
      (obj (
        field (lit "cache_control") ephemeral
          (field (lit "text") (str text) (field (lit "type") (str (lit "text")) end))))
      nil)

-- `if v.is_string() { *v = json!([...]) }`
unfoldable pub mark_content : Value → Value
mark_content (str text) = cached_text text
mark_content v = v

-- A change of the item at an index, if there is one.
unfoldable pub adjust_item : ℕ → (Value → Value) → Items → Items
adjust_item i f nil = nil
adjust_item zero f (cons v vs) = cons (f v) vs
adjust_item (suc i) f (cons v vs) = cons v (adjust_item i f vs)

-- The message before the last one gets a breakpoint on its content.
unfoldable pub mark_messages : Value → Value
unfolding adjust_item mark_content
mark_messages (arr messages) =
    if leb 2 (length_items messages)
    then arr
        (adjust_item (length_items messages - 2) (get_mut (lit "content") mark_content) messages)
    else arr messages
mark_messages v = v

-- `iter().rposition(|b| b.kind.is_cacheable())`
unfoldable pub last_cacheable_idx : List PromptBlock → Option ℕ
last_cacheable_idx [] = none
last_cacheable_idx (b ∷ bs) = elim (last_cacheable_idx bs) [
  | some i ↦ some (suc i)
  | none ↦ if is_cacheable b.kind then some zero else none
]

unfoldable pub mark_anthropic : Value → Value
unfolding mark_content mark_messages
mark_anthropic json =
    get_mut (lit "messages") mark_messages (get_mut (lit "system") mark_content json)

-- `json["store"] = true`, unless it is there.
unfoldable pub mark_openai : Value → Option Value
mark_openai json = elim (get (lit "store") json) [
  | none ↦ index_set (lit "store") (bool true) json
  | some v ↦ some json
]

-- An item of an array through `get_mut(idx)`, changed by code that may panic.
unfoldable pub try_adjust_item : ℕ → (Value → Option Value) → Items → Option Items
try_adjust_item i f nil = some nil
try_adjust_item zero f (cons v vs) = Option.map (λ u. cons u vs) (f v)
try_adjust_item (suc i) f (cons v vs) = Option.map (cons v) (try_adjust_item i f vs)

-- A field through `get_mut(key)`, if it is there and an array, changed by code that may panic.
unfoldable pub try_adjust_array : Text → (Items → Option Items) → Value → Option Value
try_adjust_array k f json = elim (get k json) [
  | some (arr vs) ↦ Option.map (λ us. get_mut k (λ old. arr us) json) (f vs)
  | _ ↦ some json
]

unfoldable pub mark_bedrock : List PromptBlock → Value → Option Value
unfolding try_adjust_item try_adjust_array last_cacheable_idx
mark_bedrock blocks json =
    Option.bind
      (index_set (lit "performanceConfig") (obj (field (lit "latency") (str (lit "optimized")) end))
        json)
      (λ v. elim (last_cacheable_idx blocks) [
        | none ↦ some v
        | some idx ↦
            try_adjust_array (lit "messages")
              (try_adjust_item idx
                (index_set (lit "cachePoint") (obj (field (lit "type") (str (lit "default")) end))))
              v
      ])

module _ (sj : SerdeJson) where
  -- `Bytes::from(to_vec(&json).unwrap_or_else(|_| body.to_vec()))`
  unfoldable pub encode_or : Bytes → Value → Bytes
  encode_or body json = get_or (sj.to_vec json) body

  unfoldable pub inject_anthropic : Bytes → List PromptBlock → Bytes
  unfolding encode_or mark_anthropic last_cacheable_idx
  inject_anthropic body blocks = elim (sj.from_slice body) [
    | none ↦ body
    | some json ↦ elim (last_cacheable_idx blocks) [
      | none ↦ body
      | some idx ↦ encode_or body (mark_anthropic json)
    ]
  ]

  unfoldable pub inject_openai : Bytes → Option Bytes
  unfolding encode_or mark_openai
  inject_openai body = elim (sj.from_slice body) [
    | none ↦ some body
    | some json ↦ Option.map (encode_or body) (mark_openai json)
  ]

  unfoldable pub inject_bedrock : Bytes → List PromptBlock → Option Bytes
  unfolding encode_or mark_bedrock
  inject_bedrock body blocks = elim (sj.from_slice body) [
    | none ↦ some body
    | some json ↦ Option.map (encode_or body) (mark_bedrock blocks json)
  ]

  unfoldable pub inject_vertex : Bytes → Bytes
  inject_vertex body = body

  unfoldable pub inject_cache_headers : LlmProvider → Bytes → List PromptBlock → Option Bytes
  unfolding inject_anthropic inject_openai inject_bedrock inject_vertex
  inject_cache_headers anthropic body blocks = some (inject_anthropic body blocks)
  inject_cache_headers open_ai body blocks = inject_openai body
  inject_cache_headers bedrock body blocks = inject_bedrock body blocks
  inject_cache_headers vertex body blocks = some (inject_vertex body)
  inject_cache_headers self_hosted body blocks = some body
