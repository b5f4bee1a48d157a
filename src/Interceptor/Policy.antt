-- ===== src/Interceptor/Policy.antt =====
-- sidecar/src/interceptor.rs: the time to live of an entry, the address of a pod, and the estimate of
-- the time saved that a log line shows.
pub mod Inferred
pub mod Port
mod Savings
use ghostcacher.Prelude.{
  ℕ, zero, suc, ◌+◌, ◌/◌, ◌%◌, ◌*◌, ◌-◌, ◌^◌, min, Bool, true, false, ◌||◌, ◌&&◌, List, [], ◌∷◌,
  ◌++◌, ltb, if◌then◌else◌,
}
use ghostcacher.Text.{Text, lit}
use ghostcacher.Float.{Float}
use ghostcacher.Config.{SidecarConfig}
use ghostcacher.Types.{
  BlockKind, system, tools, document, user, PromptBlock, TtlPolicy, infinite, fixed, sliding,
}

unfoldable pub is_document : BlockKind → Bool
is_document document = true
is_document _ = false

-- `matches!(b.kind, BlockKind::System | BlockKind::Tools | BlockKind::User)`
unfoldable pub is_plain : BlockKind → Bool
is_plain system = true
is_plain tools = true
is_plain user = true
is_plain document = false

unfoldable pub has_doc : List PromptBlock → Bool
unfolding is_document
has_doc [] = false
has_doc (b ∷ blocks) = is_document b.kind || has_doc blocks

unfoldable pub sys_only : List PromptBlock → Bool
unfolding is_plain
sys_only [] = true
sys_only (b ∷ blocks) = is_plain b.kind && sys_only blocks

unfoldable pub infer_ttl_policy : List PromptBlock → TtlPolicy
unfolding has_doc sys_only
infer_ttl_policy blocks =
    if sys_only blocks then infinite else if has_doc blocks then fixed (4 * 3600) else sliding 3600

-- The digits of a number, at most as many as the fuel; 20 are enough for 64 bits.
unfoldable pub digits : ℕ → ℕ → Text
digits zero n = []
digits (suc fuel) n =
    let upper = digits fuel (n / 10) in
    if ltb n 10 then (48 + n) ∷ [] else upper ++ ((48 + n % 10) ∷ [])

unfoldable pub pod_url : Text → SidecarConfig → Text
unfolding digits
pod_url pod_ip cfg =
    lit "http://" ++ (pod_ip ++ (lit ":" ++ (digits 20 cfg.pod_port ++ cfg.pod_path)))

-- `(cached_tokens as f64 * 0.04).round() as i64`, which is not negative: the cast stops at
-- 2 ^ 63 - 1.
unfoldable pub estimate_ttft_savings : Float → ℕ → ℕ
estimate_ttft_savings fl cached_tokens =
    min (fl.as_u64 (fl.round (fl.mul (fl.of_u64 cached_tokens) (fl.literal 4 2)))) (2 ^ 63 - 1)
