-- ===== src/Hasher/Volatile.antt =====
-- Blocks that are not cacheable leave no trace in the result.
use ghostcacher.Prelude.{
  ◌≡◌, refl, sym, ap, ◌∙◌, true, some, List, [], ◌∷◌, filter, filter_idem, arith,
}
use ghostcacher.Crypto.{Sha256}
use ghostcacher.Float.{Float}
use ghostcacher.Types.{BlockKind, system, tools, document, is_cacheable, PromptBlock}
use ghostcacher.Hasher.{hash_prompt_blocks}
use ghostcacher.Hasher.Reference.{cacheable, is_kind, reference, hash_prompt_blocks-eq-reference}

-- A cacheable kind is not skipped.
filter-kind-cacheable :
    (k : BlockKind) (bs : List PromptBlock)
    → is_cacheable k ≡ true
    → filter (λ b. is_kind k b.kind) (cacheable bs) ≡ filter (λ b. is_kind k b.kind) bs
unfolding filter is_cacheable
filter-kind-cacheable k [] h = refl
filter-kind-cacheable k (b ∷ bs) h = ground (arith, filter-kind-cacheable k bs h)

reference-cacheable :
    (sha : Sha256) (fl : Float) (bs : List PromptBlock)
    → reference sha fl (cacheable bs) ≡ reference sha fl bs
reference-cacheable sha fl bs = cc (
  filter_idem (λ (b : PromptBlock). is_cacheable b.kind) bs,
  filter-kind-cacheable system bs (unfold is_cacheable in refl),
  filter-kind-cacheable tools bs (unfold is_cacheable in refl),
  filter-kind-cacheable document bs (unfold is_cacheable in refl),
)

-- Two prompts whose cacheable blocks are the same, in the same order, have the same result in every
-- field, whatever user blocks stand between them.
pub hash_prompt_blocks_volatile :
    (sha : Sha256) (fl : Float) (xs ys : List PromptBlock)
    → cacheable xs ≡ cacheable ys
    → hash_prompt_blocks sha fl xs ≡ hash_prompt_blocks sha fl ys
hash_prompt_blocks_volatile sha fl xs ys e =
    hash_prompt_blocks-eq-reference sha fl xs
    ∙ ap some (
        sym (reference-cacheable sha fl xs)
        ∙ ap (reference sha fl) e
        ∙ reference-cacheable sha fl ys)
    ∙ sym (hash_prompt_blocks-eq-reference sha fl ys)
