-- ===== src/Hasher/Tokens.antt =====
-- The token estimate of `hash_prompt_blocks`, with the numbers `f64` of the machine.
use ghostcacher.Prelude.{
  ℕ, ◌+◌, ◌*◌, ◌/◌, ◌-◌, ◌%◌, ◌^◌, ◌<◌, ◌≡◌, ap, ap₂, refl, some, List, [], ◌∷◌, map, length, min,
  All,
}
use ghostcacher.Text.{Text, as_bytes}
use ghostcacher.Crypto.{Sha256}
use ghostcacher.Float.Binary64.{binary64}
use ghostcacher.Float.Binary64.Estimates.{ceil-div_lem}
use ghostcacher.Types.{PromptBlock}
use ghostcacher.Hasher.{HashResult, estimate_tokens, hash_prompt_blocks}
use ghostcacher.Hasher.Reference.{cacheable, sum, reference, hash_prompt_blocks-eq-reference}

-- `len / 3.8`, rounded up without a rounding error and cut off to `u32`.
abbrev pub exact_tokens : Text → ℕ
exact_tokens content = min ((5 * length (as_bytes content) + 18) / 19) (2 ^ 32 - 1)

abbrev pub HasSize : PromptBlock → Type 0
HasSize b = length (as_bytes b.content) < 2 ^ 48

estimate_tokens-exact :
    (content : Text)
    → length (as_bytes content) < 2 ^ 48
    → estimate_tokens binary64 content ≡ exact_tokens content
unfolding estimate_tokens
estimate_tokens-exact content small = ceil-div_lem (length (as_bytes content)) small

sum-exact :
    (bs : List PromptBlock)
    → All HasSize bs
    → sum (map (λ b. estimate_tokens binary64 b.content) bs)
      ≡ sum (map (λ b. exact_tokens b.content) bs)
sum-exact [] h = refl
sum-exact (b ∷ bs) (small, rest) =
    ap₂ (λ x y. x + y) (estimate_tokens-exact b.content small) (sum-exact bs rest)

-- For every hash function and every prompt whose cacheable blocks have fewer than 2^48 bytes each,
-- `hash_prompt_blocks` returns, and its token estimate is, modulo 2^32, the sum over the cacheable
-- blocks of their numbers of bytes divided by 3.8 and rounded up, each cut off at 2^32 - 1. The
-- division is exact: neither the nearest `f64` of 3.8, nor the rounding of the quotient, changes the
-- ceiling.
pub hash_prompt_blocks-tokens :
    (sha : Sha256) (blocks : List PromptBlock)
    → All HasSize (cacheable blocks)
    → (r : HashResult) × (hash_prompt_blocks sha binary64 blocks ≡ some r)
      × (r.prefix_token_estimate
          ≡ sum (map (λ b. exact_tokens b.content) (cacheable blocks)) % 2 ^ 32)
hash_prompt_blocks-tokens sha blocks small = (
  reference sha binary64 blocks,
  hash_prompt_blocks-eq-reference sha binary64 blocks,
  ap (λ n. n % 2 ^ 32) (sum-exact (cacheable blocks) small),
)
