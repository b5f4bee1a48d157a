-- ===== src/Interceptor/Policy/Savings.antt =====
-- The saved time that is logged, and the one that is counted.
use ghostcacher.Prelude.{ℕ, ◌+◌, ◌-◌, ◌/◌, ◌^◌, ◌<◌, ◌≡◌, ap, ◌∙◌, min, arith}
use ghostcacher.Float.Binary64.{binary64}
use ghostcacher.Float.Binary64.Estimates.{round-mul_lem}
use ghostcacher.Interceptor.Policy.{estimate_ttft_savings}

-- The log line says a millisecond for 25 tokens, to the next integer, as the counter does.
estimate_ttft_savings_ok :
    (cached_tokens : ℕ)
    → cached_tokens < 2 ^ 32
    → estimate_ttft_savings binary64 cached_tokens ≡ (cached_tokens + 12) / 25
unfolding estimate_ttft_savings
estimate_ttft_savings_ok cached_tokens small =
    ap (λ n. min n (2 ^ 63 - 1)) (round-mul_lem (2 ^ 64 - 1) cached_tokens (omega arith))
    ∙ omega arith
