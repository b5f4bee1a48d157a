-- ===== src/Metrics/Counts.antt =====
-- What the counters and the ratio say after a sequence of requests.
use ghostcacher.Prelude.{ℕ, suc, ◌+◌, ◌<◌, ◌^◌, ◌≡◌, refl, Option, none, some, List, [], ◌∷◌, arith}
use ghostcacher.Float.{Float}
use ghostcacher.Metrics.{MetricsRegistry, new_metrics, record_hit, record_miss, update_hit_ratio}

-- The hits, with their tokens, and the misses, the newest first.
abbrev pub hit_count : List (Option ℕ) → ℕ
hit_count [] = 0
hit_count (none ∷ es) = hit_count es
hit_count (some tokens ∷ es) = suc (hit_count es)

abbrev pub miss_count : List (Option ℕ) → ℕ
miss_count [] = 0
miss_count (none ∷ es) = suc (miss_count es)
miss_count (some tokens ∷ es) = miss_count es

module _ (fl : Float) where
  abbrev pub recorded : List (Option ℕ) → MetricsRegistry fl
  recorded [] = new_metrics fl
  recorded (none ∷ es) = record_miss fl (recorded es)
  recorded (some tokens ∷ es) = record_hit fl tokens (recorded es)

  -- The ratio of the hits in all, 0 when there was nothing.
  abbrev pub ratio : List (Option ℕ) → fl.F64
  ratio [] = fl.of_u64 0
  ratio (e ∷ es) =
      fl.div (fl.of_u64 (hit_count (e ∷ es))) (fl.of_u64 (hit_count (e ∷ es) + miss_count (e ∷ es)))

  -- After fewer than 2 ^ 64 requests both hit counters have the number of the hits, both miss
  -- counters that of the misses, and the gauge is the ratio of these numbers.
  pub recorded_ok :
      (es : List (Option ℕ))
      → hit_count es + miss_count es < 2 ^ 64
      → ((recorded es).hits ≡ hit_count es)
        × ((recorded es).total_hits ≡ hit_count es)
        × ((recorded es).misses ≡ miss_count es)
        × ((recorded es).total_misses ≡ miss_count es)
        × ((recorded es).hit_ratio ≡ ratio es)
  unfolding record_hit record_miss update_hit_ratio
  recorded_ok [] h = (refl, refl, refl, refl, refl)
  recorded_ok (none ∷ es) h = ground (arith, h, recorded_ok es (omega (arith, h)))
  recorded_ok (some tokens ∷ es) h = ground (arith, h, recorded_ok es (omega (arith, h)))
