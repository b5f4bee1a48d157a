-- ===== src/Metrics/Tests.antt =====
-- Instances of the theorems on the counters and the gauge.
use ghostcacher.Prelude.{◌≡◌, some, none, List, [], ◌∷◌, ℕ, Option, arith, false}
use ghostcacher.Float.Binary64.{finite, binary64}
use ghostcacher.Float.Binary64.Ratio.{Near}
use ghostcacher.Float.Binary64.Quotient.{Share}
use ghostcacher.Metrics.Estimates.{recorded-saved, recorded-hit_ratio}
use ghostcacher.Metrics.Counts.{recorded}

abbrev requests : List (Option ℕ)
requests = some 900 ∷ none ∷ []

recorded-saved_example :
    ((recorded binary64 requests).tokens_cached ≡ 900)
    × ((recorded binary64 requests).ttft_saved_ms ≡ 36)
recorded-saved_example = recorded-saved requests (omega arith, (tt, tt))

recorded-hit_ratio_example :
    (k m : ℕ) × ((recorded binary64 requests).hit_ratio ≡ finite false m k)
    × Near 1 2 k m
    × Share 1 2 k m
recorded-hit_ratio_example = recorded-hit_ratio requests (omega arith) (omega arith)
