-- ===== src/Metrics.antt =====
-- sidecar/src/metrics.rs: the counters and the gauges, and what records them. Counters are `u64`
-- atomics and wrap around. The buckets of the histogram and the text format are those of the crate
-- `prometheus`.
pub mod Tests
pub mod Counts
pub mod Estimates
pub mod Registration
use ghostcacher.Prelude.{ℕ, ◌+◌, ◌%◌, ◌^◌, Bool, true, false, ltb, if◌then◌else◌, List, [], ◌∷◌}
use ghostcacher.Float.{Float}

abbrev pub add_u64 : ℕ → ℕ → ℕ
add_u64 a b = (a + b) % 2 ^ 64

module _ (fl : Float) where
  pub record MetricsRegistry : Type 0 where
    pub hits : ℕ
    pub misses : ℕ
    pub tokens_cached : ℕ
    pub ttft_saved_ms : ℕ
    pub rdma_transfers : ℕ
    pub hit_ratio : fl.F64
    pub active_entries : fl.F64
    -- The observations of the histogram, the newest first.
    pub latency_ms : List fl.F64
    pub total_hits : ℕ
    pub total_misses : ℕ

  abbrev pub new_metrics : MetricsRegistry
  new_metrics = record {
    hits = 0;
    misses = 0;
    tokens_cached = 0;
    ttft_saved_ms = 0;
    rdma_transfers = 0;
    hit_ratio = fl.of_u64 0;
    active_entries = fl.of_u64 0;
    latency_ms = [];
    total_hits = 0;
    total_misses = 0;
  }

  unfoldable pub update_hit_ratio : ℕ → ℕ → MetricsRegistry → MetricsRegistry
  update_hit_ratio hits misses m =
      if ltb 0 (add_u64 hits misses)
      then record m { hit_ratio = fl.div (fl.of_u64 hits) (fl.of_u64 (add_u64 hits misses)) }
      else m

  -- `(tokens_saved as f64 * 0.04).round() as u64`
  unfoldable pub ttft_ms : ℕ → ℕ
  ttft_ms tokens_saved = fl.as_u64 (fl.round (fl.mul (fl.of_u64 tokens_saved) (fl.literal 4 2)))

  unfoldable pub record_hit : ℕ → MetricsRegistry → MetricsRegistry
  unfolding update_hit_ratio ttft_ms
  record_hit tokens_saved m = update_hit_ratio (add_u64 m.total_hits 1) m.total_misses (record m {
    hits = add_u64 m.hits 1;
    tokens_cached = add_u64 m.tokens_cached tokens_saved;
    ttft_saved_ms = add_u64 m.ttft_saved_ms (ttft_ms tokens_saved);
    total_hits = add_u64 m.total_hits 1;
  })

  unfoldable pub record_miss : MetricsRegistry → MetricsRegistry
  unfolding update_hit_ratio
  record_miss m =
      update_hit_ratio m.total_hits (add_u64 m.total_misses 1)
        (record m { misses = add_u64 m.misses 1; total_misses = add_u64 m.total_misses 1 })

  unfoldable pub record_rdma_transfer : MetricsRegistry → MetricsRegistry
  record_rdma_transfer m = record m { rdma_transfers = add_u64 m.rdma_transfers 1 }

  unfoldable pub record_latency : fl.F64 → MetricsRegistry → MetricsRegistry
  record_latency ms m = record m { latency_ms = ms ∷ m.latency_ms }

  unfoldable pub set_active_entries : fl.F64 → MetricsRegistry → MetricsRegistry
  set_active_entries count m = record m { active_entries = count }
