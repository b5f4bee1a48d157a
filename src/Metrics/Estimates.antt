-- ===== src/Metrics/Estimates.antt =====
-- What the gauges and the counters of saved tokens and times say, with the numbers `f64` of the
-- machine.
use ghostcacher.Prelude.{
  ℕ, ◌+◌, ◌/◌, ◌-◌, ◌%◌, ◌^◌, ◌<◌, ◌≡◌, refl, ◌∙◌, Option, none, some, List, [], ◌∷◌, All, arith,
  false,
}
use ghostcacher.Float.Binary64.{finite, binary64}
use ghostcacher.Float.Binary64.Ratio.{Near, nearest_lem}
use ghostcacher.Float.Binary64.Quotient.{div_lem, Share, Near-Share}
use ghostcacher.Float.Binary64.Estimates.{round-mul_lem}
use ghostcacher.Metrics.{ttft_ms, record_hit, record_miss, update_hit_ratio}
use ghostcacher.Metrics.Counts.{hit_count, miss_count, recorded, recorded_ok}

-- The tokens of the hits, and the milliseconds of each, 0.04 to a token, to the next integer.
abbrev pub hit_tokens : List (Option ℕ) → ℕ
hit_tokens [] = 0
hit_tokens (none ∷ es) = hit_tokens es
hit_tokens (some tokens ∷ es) = hit_tokens es + tokens

abbrev pub hit_ms : List (Option ℕ) → ℕ
hit_ms [] = 0
hit_ms (none ∷ es) = hit_ms es
hit_ms (some tokens ∷ es) = hit_ms es + (tokens + 12) / 25

-- The tokens of a hit are a `u32`.
abbrev pub IsTokenCount : Option ℕ → Type 0
IsTokenCount none = Unit
IsTokenCount (some tokens) = tokens < 2 ^ 32

ttft_ms-exact : (tokens : ℕ) → tokens < 2 ^ 32 → ttft_ms binary64 tokens ≡ (tokens + 12) / 25
unfolding ttft_ms
ttft_ms-exact tokens small = round-mul_lem (2 ^ 64 - 1) tokens (omega arith) ∙ omega arith

-- After any requests whose hits have `u32` token counts, the counter of the cached tokens is the
-- sum of these counts modulo 2^64, and the counter of the saved milliseconds is, modulo 2^64, the
-- sum over the hits of the tokens divided by 25 and rounded to the next integer: the product with
-- the `f64` next to 0.04 and its rounding change nothing.
pub recorded-saved :
    (es : List (Option ℕ))
    → All IsTokenCount es
    → ((recorded binary64 es).tokens_cached ≡ hit_tokens es % 2 ^ 64)
      × ((recorded binary64 es).ttft_saved_ms ≡ hit_ms es % 2 ^ 64)
unfolding record_hit record_miss update_hit_ratio
recorded-saved [] h = (refl, refl)
recorded-saved (none ∷ es) (u, h) = ground (arith, recorded-saved es h)
recorded-saved (some tokens ∷ es) (small, h) =
    ground (arith, recorded-saved es h, ttft_ms-exact tokens small)

-- After n requests, of which there is one at least and fewer than 2^53, the gauge of the hit ratio
-- is a fraction m / k from 0 to 1 that is within half its last place of the true ratio. It is 0
-- exactly when there was no hit, and 1 exactly when there was no miss.
pub recorded-hit_ratio :
    (es : List (Option ℕ))
    → 0 < hit_count es + miss_count es
    → hit_count es + miss_count es < 2 ^ 53
    → (k m : ℕ) × ((recorded binary64 es).hit_ratio ≡ finite false m k)
      × Near (hit_count es) (hit_count es + miss_count es) k m
      × Share (hit_count es) (hit_count es + miss_count es) k m
recorded-hit_ratio [] asked small = absurd (omega arith)
recorded-hit_ratio (e ∷ es) asked small =
    let hits = hit_count (e ∷ es) in
    let all = hits + miss_count (e ∷ es) in
    let (k, m, r, kpos, near) = nearest_lem false hits all asked (omega arith) in
    let (h, th, ms, tm, gauge) = recorded_ok binary64 (e ∷ es) (omega arith) in
    (
      k,
      m,
      gauge ∙ (div_lem hits all asked (omega arith) small ∙ r),
      near,
      Near-Share hits all k m asked small (omega arith) near,
    )
