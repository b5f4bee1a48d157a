-- ===== src/Interceptor/Extract.antt =====
-- sidecar/src/interceptor.rs: from a request's body to its prompt blocks. `none` is an error.
pub mod Turns
use mathlib.Core.Option
use mathlib.Core.Option.{get_or}
use ghostcacher.Prelude.{Bool, true, false, Option, none, some, List, [], ◌∷◌, ◌++◌, if◌then◌else◌}
use ghostcacher.Text.{Text, Bytes, lit, text_eq}
use ghostcacher.Types.{
  LlmProvider, anthropic, open_ai, bedrock, vertex, self_hosted, BlockKind, system, tools, document,
  user, PromptBlock,
}
use ghostcacher.Json.{Value, get, as_str, as_array, SerdeJson}

abbrev pub block : BlockKind → Text → PromptBlock
block kind content = record { kind = kind; content = content; hash = none }

-- All but the last element, `&v[..v.len() - 1]`, and `last()`.
abbrev pub prior {ℓ} : {A : Type ℓ} → List A → List A
prior [] = []
prior (x ∷ []) = []
prior (x ∷ y ∷ l) = x ∷ prior (y ∷ l)

abbrev pub last {ℓ} : {A : Type ℓ} → List A → Option A
last [] = none
last (x ∷ []) = some x
last (x ∷ y ∷ l) = last (y ∷ l)

-- `blocks.push(..)` with a content that may fail to be written.
abbrev pub push : BlockKind → Option Text → List PromptBlock → Option (List PromptBlock)
push kind content blocks = Option.map (λ c. blocks ++ (block kind c ∷ [])) content

-- `msg.get("role").and_then(as_str).unwrap_or("")`
unfoldable pub role_of : Value → Text
role_of msg = get_or (Option.bind (get (lit "role") msg) as_str) []

module _ (sj : SerdeJson) where
  -- The document block of the earlier messages, if there are any.
  unfoldable pub push_prior : List Value → List PromptBlock → Option (List PromptBlock)
  push_prior [] blocks = some blocks
  push_prior (m ∷ ms) blocks = push document (sj.slice_to_string (m ∷ ms)) blocks

  -- The user block of the last message, if there is one.
  unfoldable pub push_last : Option Value → List PromptBlock → Option (List PromptBlock)
  push_last none blocks = some blocks
  push_last (some msg) blocks = push user (sj.to_string msg) blocks

  unfoldable pub push_messages : List Value → List PromptBlock → Option (List PromptBlock)
  unfolding push_prior push_last
  push_messages messages blocks =
      Option.bind (push_prior (prior messages) blocks) (push_last (last messages))

  -- The block of a `system` that is a text.
  unfoldable pub system_blocks : Option Value → List PromptBlock
  system_blocks sys = elim (Option.bind sys as_str) [
    | none ↦ []
    | some text ↦ block system text ∷ []
  ]

  unfoldable pub push_tools : Option Value → List PromptBlock → Option (List PromptBlock)
  push_tools none blocks = some blocks
  push_tools (some tools_val) blocks = push tools (sj.to_string tools_val) blocks

  -- The `messages` that are an array.
  unfoldable pub push_turns : Option (List Value) → List PromptBlock → Option (List PromptBlock)
  unfolding push_messages
  push_turns none blocks = some blocks
  push_turns (some messages) blocks = push_messages messages blocks

  unfoldable pub extract_anthropic_blocks : Value → Option (List PromptBlock)
  unfolding push_turns push_tools system_blocks
  extract_anthropic_blocks json =
      Option.bind (push_tools (get (lit "tools") json) (system_blocks (get (lit "system") json)))
        (push_turns (Option.bind (get (lit "messages") json) as_array))

  -- One message: the blocks and the history after it.
  unfoldable pub sort_message :
      Value → List PromptBlock → List Value → Option (List PromptBlock × List Value)
  unfolding role_of
  sort_message msg blocks history =
      if text_eq (role_of msg) (lit "system")
      then Option.map (λ b. (b, history)) (push system (sj.to_string msg) blocks)
      else if text_eq (role_of msg) (lit "tool")
      then Option.map (λ b. (b, history)) (push tools (sj.to_string msg) blocks)
      else if text_eq (role_of msg) (lit "user")
      then some (blocks, history ++ (msg ∷ []))
      else if text_eq (role_of msg) (lit "assistant")
      then some (blocks, history ++ (msg ∷ []))
      else some (blocks, history)

  unfoldable pub sort_messages :
      List Value → List PromptBlock → List Value → Option (List PromptBlock × List Value)
  unfolding sort_message
  sort_messages [] blocks history = some (blocks, history)
  sort_messages (msg ∷ messages) blocks history =
      Option.bind (sort_message msg blocks history) (λ r. sort_messages messages r.0 r.1)

  unfoldable pub extract_openai_blocks : Value → Option (List PromptBlock)
  unfolding sort_messages push_messages
  extract_openai_blocks json =
      Option.bind
        (sort_messages (get_or (Option.bind (get (lit "messages") json) as_array) []) [] [])
        (λ r. push_messages r.1 r.0)

  -- Whether the provider is `Anthropic`.
  unfoldable pub extract_for : LlmProvider → Value → Option (List PromptBlock)
  unfolding extract_anthropic_blocks extract_openai_blocks
  extract_for anthropic json = extract_anthropic_blocks json
  extract_for _ json = extract_openai_blocks json

  unfoldable pub extract_prompt_blocks : LlmProvider → Bytes → Option (List PromptBlock)
  unfolding extract_for
  extract_prompt_blocks provider body = Option.bind (sj.from_slice body) (λ json.
      elim (get (lit "gc_blocks") json) [
        | some blocks_val ↦ sj.blocks_from_value blocks_val
        | none ↦ extract_for provider json
      ])
