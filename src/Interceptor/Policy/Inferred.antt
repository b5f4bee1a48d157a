-- ===== src/Interceptor/Policy/Inferred.antt =====
-- The time to live that is inferred from the blocks.
use ghostcacher.Prelude.{◌≡◌, refl, not, List, [], ◌∷◌, arith, if◌then◌else◌}
use ghostcacher.Types.{PromptBlock, BlockKind, system, tools, document, user, infinite, fixed}
use ghostcacher.Interceptor.Policy.{is_document, is_plain, has_doc, sys_only, infer_ttl_policy}

is_plain-is_document : (k : BlockKind) → is_plain k ≡ not (is_document k)
unfolding is_plain is_document
is_plain-is_document system = refl
is_plain-is_document tools = refl
is_plain-is_document document = refl
is_plain-is_document user = refl

sys_only-has_doc : (blocks : List PromptBlock) → sys_only blocks ≡ not (has_doc blocks)
unfolding sys_only has_doc
sys_only-has_doc [] = refl
sys_only-has_doc (b ∷ blocks) = ground (arith, is_plain-is_document b.kind, sys_only-has_doc blocks)

-- The inferred policy is four hours when there is a document block, and infinite when there is
-- none; it is never a sliding one.
pub infer_ttl_policy_ok :
    (blocks : List PromptBlock)
    → infer_ttl_policy blocks ≡ (if has_doc blocks then fixed 14400 else infinite)
unfolding infer_ttl_policy
infer_ttl_policy_ok blocks = ground (arith, sys_only-has_doc blocks)
