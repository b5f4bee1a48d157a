-- ===== src/Hasher/Asserts.antt =====
-- sidecar/src/hasher.rs, the module `tests`: its unit tests as functions of the hash, and which of
-- them hold for every hash. A test's result is that of its assertion, `none` a panic before it.
use mathlib.Core.Option
use mathlib.Core.Option.{some-injective}
use ghostcacher.Prelude.{
  ◌≡◌, refl, sym, ap, ◌∙◌, Bool, true, false, not, Option, none, some, List, [], ◌∷◌, ◌⊎◌, inl, inr,
  arith, Bool-cases,
}
use ghostcacher.Text.{Text, lit, text_eq, as_bytes}
use ghostcacher.Text.Laws.{text_eq_iff}
use ghostcacher.Crypto.{Sha256}
use ghostcacher.Float.{Float}
use ghostcacher.Types.{BlockKind, system, tools, document, user, PromptBlock}
use ghostcacher.Hasher.{HashResult, sha256_hex, hash_prompt_blocks}
use ghostcacher.Hasher.Reference.{reference, hash_prompt_blocks-eq-reference}
use ghostcacher.Hasher.Collisions.{
  canonical_blocks, prefix_of, AreTexts, CollisionFree, prefix-canonical, canonical-prefix,
}

abbrev pub block : BlockKind → Text → PromptBlock
block kind content = record { kind = kind; content = content; hash = none }

abbrev tidy : List PromptBlock
tidy = block system (lit "You are a helpful assistant.") ∷ []

abbrev spaced : List PromptBlock
spaced = block system (lit "  You  are  a  helpful  assistant.  ") ∷ []

abbrev second_first : List PromptBlock
second_first = block document (lit "[ SOURCE:002 ] Second doc.\n[ SOURCE:001 ] First doc.") ∷ []

abbrev first_second : List PromptBlock
first_second = block document (lit "[ SOURCE:001 ] First doc.\n[ SOURCE:002 ] Second doc.") ∷ []

abbrev clause : List PromptBlock
clause = block system (lit "You are a legal AI.") ∷ block user (lit "What is clause 4?") ∷ []

abbrev summary : List PromptBlock
summary = block system (lit "You are a legal AI.") ∷ block user (lit "Summarize section 7.") ∷ []

abbrev assistant_a : List PromptBlock
assistant_a = block system (lit "You are assistant A.") ∷ []

abbrev assistant_b : List PromptBlock
assistant_b = block system (lit "You are assistant B.") ∷ []

-- `==` on optional texts.
abbrev same_option : Option Text → Option Text → Bool
same_option none none = true
same_option (some a) (some b) = text_eq a b
same_option _ _ = false

abbrev first_content : List (BlockKind × Text) → Text
first_content [] = []
first_content ((kind, content) ∷ bs) = content

assistants_differ : (canonical_blocks assistant_a ≡ canonical_blocks assistant_b) → ⊥
unfolding text_eq ghostcacher.Prelude.filter ghostcacher.Types.is_cacheable
    ghostcacher.Hasher.canonicalize ghostcacher.Hasher.collapse ghostcacher.Text.join
    ghostcacher.Text.split_whitespace ghostcacher.Text.trim ghostcacher.Text.trim_end
    ghostcacher.Text.trim_start ghostcacher.Text.is_whitespace
assistants_differ e = let wrong : false ≡ true = (text_eq_iff _ _).1 (ap first_content e) in cc

documents_differ : (canonical_blocks second_first ≡ canonical_blocks first_second) → ⊥
unfolding text_eq ghostcacher.Prelude.filter ghostcacher.Types.is_cacheable
    ghostcacher.Hasher.canonicalize ghostcacher.Hasher.canonicalize_sections ghostcacher.Text.split
    ghostcacher.Text.trim ghostcacher.Text.trim_end ghostcacher.Text.trim_start
    ghostcacher.Text.is_whitespace ghostcacher.Hasher.collapse ghostcacher.Text.join
    ghostcacher.Text.split_whitespace
documents_differ e = let wrong : false ≡ true = (text_eq_iff _ _).1 (ap first_content e) in cc

module _ (sha : Sha256) (fl : Float) where
  -- The assertion on the results of two prompts.
  abbrev compared :
      (HashResult → HashResult → Bool) → List PromptBlock → List PromptBlock → Option Bool
  compared check xs ys =
      Option.bind (hash_prompt_blocks sha fl xs)
        (λ h1. Option.bind (hash_prompt_blocks sha fl ys) (λ h2. some (check h1 h2)))

  abbrev same_prefix : HashResult → HashResult → Bool
  same_prefix h1 h2 = text_eq h1.prefix h2.prefix

  unfoldable pub whitespace_normalization_is_stable : Option Bool
  whitespace_normalization_is_stable = compared same_prefix tidy spaced

  unfoldable pub document_source_ordering_is_stable : Option Bool
  document_source_ordering_is_stable =
      compared (λ h1 h2. same_option h1.h_doc h2.h_doc) second_first first_second

  unfoldable pub user_block_excluded_from_prefix : Option Bool
  user_block_excluded_from_prefix = compared same_prefix clause summary

  unfoldable pub different_system_prompts_produce_different_hashes : Option Bool
  different_system_prompts_produce_different_hashes =
      compared (λ h1 h2. not (same_prefix h1 h2)) assistant_a assistant_b

  compared-reference :
      (check : HashResult → HashResult → Bool) (xs ys : List PromptBlock)
      → compared check xs ys ≡ some (check (reference sha fl xs) (reference sha fl ys))
  unfolding Option.bind
  compared-reference check xs ys =
      rw (hash_prompt_blocks-eq-reference sha fl xs, hash_prompt_blocks-eq-reference sha fl ys) refl

  prefix_ok : (xs : List PromptBlock) → prefix_of sha fl xs ≡ some (reference sha fl xs).prefix
  prefix_ok xs = rw (hash_prompt_blocks-eq-reference sha fl xs) refl

  -- Equal canonical blocks pass a comparison of the prefixes.
  same_prefix_passes :
      (xs ys : List PromptBlock)
      → canonical_blocks xs ≡ canonical_blocks ys
      → compared same_prefix xs ys ≡ some true
  same_prefix_passes xs ys e =
      let same : (reference sha fl xs).prefix ≡ (reference sha fl ys).prefix =
        some-injective _ _ (sym (prefix_ok xs) ∙ prefix-canonical sha fl xs ys e ∙ prefix_ok ys) in
      compared-reference same_prefix xs ys ∙ ap some ((text_eq_iff _ _).1 same)

  -- Prompts with different canonical blocks that do not collide have different prefixes.
  differs :
      (xs ys : List PromptBlock)
      → AreTexts xs
      → AreTexts ys
      → ((canonical_blocks xs ≡ canonical_blocks ys) → ⊥)
      → CollisionFree sha xs ys
      → text_eq (reference sha fl xs).prefix (reference sha fl ys).prefix ≡ false
  differs xs ys hx hy apart free =
      elim (Bool-cases (text_eq (reference sha fl xs).prefix (reference sha fl ys).prefix)) [
        | inr e ↦ e
        | inl e ↦ absurd (
            apart (
              (canonical-prefix sha fl xs ys hx hy free).0
                (prefix_ok xs ∙ ap some ((text_eq_iff _ _).0 e) ∙ sym (prefix_ok ys))))
      ]

  whitespace_ok : whitespace_normalization_is_stable ≡ some true
  unfolding whitespace_normalization_is_stable ghostcacher.Prelude.filter
      ghostcacher.Types.is_cacheable ghostcacher.Hasher.canonicalize ghostcacher.Text.trim
      ghostcacher.Text.trim_start ghostcacher.Text.is_whitespace ghostcacher.Text.trim_end
      ghostcacher.Hasher.collapse ghostcacher.Text.split_whitespace
  whitespace_ok = same_prefix_passes tidy spaced refl

  user_block_ok : user_block_excluded_from_prefix ≡ some true
  unfolding user_block_excluded_from_prefix ghostcacher.Prelude.filter
      ghostcacher.Types.is_cacheable
  user_block_ok = same_prefix_passes clause summary refl

  -- The last test passes, if its prompts do not collide.
  different_ok :
      CollisionFree sha assistant_a assistant_b
      → different_system_prompts_produce_different_hashes ≡ some true
  unfolding different_system_prompts_produce_different_hashes
  different_ok free =
      compared-reference (λ h1 h2. not (same_prefix h1 h2)) assistant_a assistant_b
      ∙ ap (λ b. some (not b))
          (differs assistant_a assistant_b (omega arith) (omega arith) assistants_differ free)

  -- Documents that are whole prompts have one prefix where they have one hash.
  one_document :
      (a b : Text)
      → same_option
          (reference sha fl (block document a ∷ [])).h_doc
          (reference sha fl (block document b ∷ [])).h_doc
        ≡ true
      → text_eq
          (reference sha fl (block document a ∷ [])).prefix
          (reference sha fl (block document b ∷ [])).prefix
        ≡ true
  unfolding ghostcacher.Prelude.filter ghostcacher.Types.is_cacheable ghostcacher.Text.join
  one_document a b e =
      (text_eq_iff _ _).1 (ap (λ h. sha256_hex sha (as_bytes h)) ((text_eq_iff _ _).0 e))

  -- The second test fails, if its prompts do not collide: its tags are no tags.
  document_order_ok :
      CollisionFree sha second_first first_second → document_source_ordering_is_stable ≡ some false
  unfolding document_source_ordering_is_stable
  document_order_ok free =
      let e = differs second_first first_second (omega arith) (omega arith) documents_differ free in
      elim (Bool-cases
        (same_option (reference sha fl second_first).h_doc (reference sha fl first_second).h_doc)) [
          | inr apart ↦
              compared-reference (λ h1 h2. same_option h1.h_doc h2.h_doc) second_first first_second
              ∙ ap some apart
          | inl same ↦ absurd (cc (one_document _ _ same, e))
        ]
