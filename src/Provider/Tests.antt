-- ===== src/Provider/Tests.antt =====
-- Instances of the theorems on the adapters.
use ghostcacher.Prelude.{◌≡◌, refl, false, some, none, List, [], ◌∷◌}
use ghostcacher.Text.{Text, lit, text_eq}
use ghostcacher.Types.{PromptBlock, system}
use ghostcacher.Json.{Value, Items, obj, get, arr, cons, nil, Fields, field, end, str}
use ghostcacher.Json.Sample.{message}
use ghostcacher.Provider.{mark_anthropic, mark_openai, mark_bedrock}
use ghostcacher.World.{is_some}
use ghostcacher.Provider.OpenAi.{mark_openai_panics}
use ghostcacher.Provider.Bedrock.{Pointed, bedrock_field, mark_bedrock_ok}

mark_openai_panics_example : is_some (mark_openai (str (lit "Hello"))) ≡ false
mark_openai_panics_example = mark_openai_panics (str (lit "Hello"))

abbrev first_message : Value
first_message = message (lit "user") (lit "Hello")

abbrev asked : Fields
asked = field (lit "messages") (arr (cons first_message nil)) end

abbrev briefed : List PromptBlock
briefed = record { kind = system; content = lit "Be brief."; hash = none } ∷ []

mark_bedrock_ok_example :
    (out : Value) × (us : Items) × (mark_bedrock briefed (obj asked) ≡ some out)
    × ((k : Text) → get k out ≡ bedrock_field us asked k)
    × Pointed 0 (cons first_message nil) us
unfolding ghostcacher.Provider.last_cacheable_idx ghostcacher.Types.is_cacheable get
    ghostcacher.Json.lookup text_eq
mark_bedrock_ok_example = mark_bedrock_ok briefed 0 asked (cons first_message nil) refl refl refl
