-- ===== src/Hasher/Tests.antt =====
-- Instances of the theorems on hashing, at a toy hash.
use mathlib.Core.List.Perm
use ghostcacher.Prelude.{
  ◌≡◌, refl, ◌≢◌, ◌↔◌, ◌⊎◌, inl, ℕ, some, none, Option, List, [], ◌∷◌, map, arith, ◌%◌, ◌^◌,
}
use ghostcacher.Text.{Text, lit, split_whitespace}
use ghostcacher.Crypto.Sample.{toy}
use ghostcacher.Float.Binary64.{binary64}
use ghostcacher.Float.Sample.{coarse}
use ghostcacher.Types.{BlockKind, system, tools, document, user, PromptBlock}
use ghostcacher.Hasher.{HashResult, collapse, canonicalize, hash_prompt_blocks}
use ghostcacher.Hasher.Reference.{cacheable, sum, reference, hash_prompt_blocks-eq-reference}
use ghostcacher.Hasher.Tokens.{exact_tokens, hash_prompt_blocks-tokens}
use ghostcacher.Hasher.Volatile.{hash_prompt_blocks_volatile}
use ghostcacher.Hasher.Canonical.{canonicalize_iff}
use ghostcacher.Hasher.Collisions.{
  canonical_blocks, AreTexts, CollisionFree, prefix_of, canonical-prefix,
}
use ghostcacher.Hasher.Asserts.{block}
use ghostcacher.Hasher.Order.{Section, IsDocument, document_text, canonicalize_reorder}

abbrev prompt : List PromptBlock
prompt = block system (lit "Be  brief.") ∷ block document (lit "A b") ∷ block user (lit "Why?") ∷ []

abbrev next_prompt : List PromptBlock
next_prompt =
    block system (lit "Be  brief.") ∷ block document (lit "A b") ∷ block user (lit "How?") ∷ []

abbrev respaced : List PromptBlock
respaced = block system (lit " Be brief. ") ∷ block document (lit "A  b") ∷ []

hash_prompt_blocks-eq-reference_example :
    hash_prompt_blocks toy coarse prompt ≡ some (reference toy coarse prompt)
hash_prompt_blocks-eq-reference_example = hash_prompt_blocks-eq-reference toy coarse prompt

hash_prompt_blocks_volatile_example :
    hash_prompt_blocks toy coarse prompt ≡ hash_prompt_blocks toy coarse next_prompt
unfolding ghostcacher.Prelude.filter ghostcacher.Types.is_cacheable
hash_prompt_blocks_volatile_example = hash_prompt_blocks_volatile toy coarse prompt next_prompt refl

not_document : system ≢ document
not_document e = cc

canonicalize_iff_example :
    (canonicalize system (lit "a  b") ≡ canonicalize system (lit " a b"))
    ↔ (split_whitespace (lit "a  b") ≡ split_whitespace (lit " a b"))
canonicalize_iff_example =
    canonicalize_iff system (lit "a  b") (lit " a b") (inl not_document) (inl not_document)

texts : AreTexts prompt
texts = ground arith

texts_respaced : AreTexts respaced
texts_respaced = ground arith

collision_free : CollisionFree toy prompt respaced
unfolding ghostcacher.Prelude.filter ghostcacher.Types.is_cacheable canonicalize
    ghostcacher.Text.trim ghostcacher.Text.trim_start ghostcacher.Text.is_whitespace
    ghostcacher.Text.trim_end collapse ghostcacher.Text.split split_whitespace
    ghostcacher.Hasher.canonicalize_sections ghostcacher.Hasher.hash_block
    ghostcacher.Hasher.tagged_block
collision_free = (λ e. refl, (λ e. refl, (λ e. refl, tt)))

canonical-prefix_example :
    (prefix_of toy coarse prompt ≡ prefix_of toy coarse respaced)
    ↔ (canonical_blocks prompt ≡ canonical_blocks respaced)
unfolding ghostcacher.Prelude.filter ghostcacher.Types.is_cacheable canonicalize
    ghostcacher.Text.trim ghostcacher.Text.trim_start ghostcacher.Text.is_whitespace
    ghostcacher.Text.trim_end collapse ghostcacher.Text.split split_whitespace
    ghostcacher.Hasher.canonicalize_sections
canonical-prefix_example =
    canonical-prefix toy coarse prompt respaced texts texts_respaced collision_free

abbrev one : Section
one = record { body = lit " one] First."; gap = [] }

abbrev two : Section
two = record { body = lit " two] Second."; gap = [] }

abbrev spaced_one : Section
spaced_one = record { body = lit " one] First."; gap = lit "\n" }

abbrev spaced_two : Section
spaced_two = record { body = lit " two] Second."; gap = lit " " }

one_last-IsDocument : IsDocument (lit "Read.") (spaced_two ∷ one ∷ [])
unfolding ghostcacher.Text.contains ghostcacher.Text.starts_with ghostcacher.Text.trim
    ghostcacher.Text.trim_end ghostcacher.Text.trim_start ghostcacher.Text.is_whitespace
one_last-IsDocument = record {
  preamble_untagged = refl;
  untagged = (refl, (refl, tt));
  gaps = ((refl, tt), (tt, tt));
  trimmed = refl;
  distinct = ((refl, tt), (tt, tt));
}

two_last-IsDocument : IsDocument (lit "Read.") (spaced_one ∷ two ∷ [])
unfolding ghostcacher.Text.contains ghostcacher.Text.starts_with ghostcacher.Text.is_whitespace
    ghostcacher.Text.trim ghostcacher.Text.trim_end ghostcacher.Text.trim_start
two_last-IsDocument = record {
  preamble_untagged = refl;
  untagged = (refl, (refl, tt));
  gaps = ((refl, tt), (tt, tt));
  trimmed = refl;
  distinct = ((refl, tt), (tt, tt));
}

canonicalize_reorder_example :
    canonicalize document (document_text (lit "Read.") (spaced_two ∷ one ∷ []))
    ≡ canonicalize document (document_text (lit "Read.") (spaced_one ∷ two ∷ []))
canonicalize_reorder_example =
    canonicalize_reorder (lit "Read.") (spaced_two ∷ one ∷ []) (spaced_one ∷ two ∷ [])
      one_last-IsDocument two_last-IsDocument (Perm.swap _ _ _)

hash_prompt_blocks-tokens_example :
    (r : HashResult) × (hash_prompt_blocks toy binary64 prompt ≡ some r)
    × (r.prefix_token_estimate
        ≡ sum (map (λ b. exact_tokens b.content) (cacheable prompt)) % 2 ^ 32)
unfolding ghostcacher.Text.as_bytes
hash_prompt_blocks-tokens_example = hash_prompt_blocks-tokens toy prompt (
    unfold ghostcacher.Prelude.filter ghostcacher.Types.is_cacheable in
    (omega arith, (omega arith, tt)))
