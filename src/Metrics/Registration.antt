-- ===== src/Metrics/Registration.antt =====
-- sidecar/src/metrics.rs, `MetricsRegistry::new` and `render`: the metrics are created and registered
-- with the crate `prometheus`, which is an interface.
pub mod Created
pub mod Sample
use mathlib.Core.Option
use mathlib.Core.Option.{get_or}
use ghostcacher.Prelude.{
  ℕ, ◌≡◌, Bool, true, false, ◌&&◌, ◌||◌, Option, none, some, List, [], ◌∷◌, ◌++◌, leb, ltb, map,
  not, ◌==◌,
}
use ghostcacher.Text.{Text, lit, text_eq}

-- The kind of a metric; the bounds of a histogram's buckets are in tenths.
pub data Kind : Type 0 where
  int_counter : Kind
  gauge : Kind
  histogram : List ℕ → Kind

pub record Opts : Type 0 where
  pub name : Text
  pub help : Text
  pub kind : Kind

-- The metrics in the order of their creation, which is that of their registration.
abbrev pub metric_opts : List Opts
metric_opts =
    record {
      name = lit "gc_cache_hits_total";
      help = lit "Total number of GhostCacher cache hits";
      kind = int_counter;
    }
    ∷ record {
      name = lit "gc_cache_misses_total";
      help = lit "Total number of GhostCacher cache misses";
      kind = int_counter;
    }
    ∷ record {
      name = lit "gc_tokens_cached_total";
      help = lit "Cumulative count of prompt tokens served from cache";
      kind = int_counter;
    }
    ∷ record {
      name = lit "gc_saved_ttft_ms_total";
      help = lit "Cumulative TTFT milliseconds saved by cache hits";
      kind = int_counter;
    }
    ∷ record {
      name = lit "gc_rdma_transfers_total";
      help = lit "Total KV tensor transfers via RDMA between GPU nodes";
      kind = int_counter;
    }
    ∷ record {
      name = lit "gc_cache_hit_ratio";
      help = lit "Rolling cache hit ratio (0.0 to 1.0)";
      kind = gauge;
    }
    ∷ record {
      name = lit "gc_active_cache_entries";
      help = lit "Current number of active cache entries in Redis";
      kind = gauge;
    }
    ∷ record {
      name = lit "gc_request_latency_ms";
      help = lit "GhostCacher sidecar overhead latency in milliseconds";
      kind = histogram (1 ∷ 5 ∷ 10 ∷ 25 ∷ 50 ∷ 100 ∷ 250 ∷ 500 ∷ 1000 ∷ []);
    }
    ∷ []

-- What the crate documents: a name has letters, digits, underscores and colons and begins with no
-- digit, the help is not empty, and the bounds of the buckets ascend.
abbrev pub is_letter : ℕ → Bool
is_letter c = (leb 65 c && leb c 90) || ((leb 97 c && leb c 122) || ((c == 95) || (c == 58)))

abbrev pub is_name_char : ℕ → Bool
is_name_char c = is_letter c || (leb 48 c && leb c 57)

abbrev pub all_name_chars : Text → Bool
all_name_chars [] = true
all_name_chars (c ∷ cs) = is_name_char c && all_name_chars cs

abbrev pub is_name : Text → Bool
is_name [] = false
is_name (c ∷ cs) = is_letter c && all_name_chars cs

abbrev pub ascend : List ℕ → Bool
ascend [] = true
ascend (x ∷ []) = true
ascend (x ∷ (y ∷ ys)) = ltb x y && ascend (y ∷ ys)

abbrev pub is_kind : Kind → Bool
is_kind int_counter = true
is_kind gauge = true
is_kind (histogram bounds) = ascend bounds

abbrev pub is_valid : Opts → Bool
is_valid o = is_name o.name && ((not (text_eq o.help [])) && is_kind o.kind)

abbrev pub is_new : Text → List Text → Bool
is_new k [] = true
is_new k (j ∷ js) = not (text_eq k j) && is_new k js

pub record Prometheus : Type 1 where
  pub Registry : Type 0
  pub Collector : Type 0
  pub new_registry : Registry
  -- The names that are registered.
  pub names : Registry → List Text
  pub name_of : Collector → Text
  -- `with_opts`; `none` is an error.
  pub with_opts : Opts → Option Collector
  pub register : Collector → Registry → Option Registry
  -- `TextEncoder::encode_to_string` of what `gather` gives.
  pub encode : Registry → Option Text
  pub names-new_registry : names new_registry ≡ []
  pub with_opts_ok :
      (o : Opts)
      → is_valid o ≡ true
      → (c : Collector) × (with_opts o ≡ some c) × (name_of c ≡ o.name)
  pub register_ok :
      (c : Collector) (r : Registry)
      → is_new (name_of c) (names r) ≡ true
      → (t : Registry) × (register c r ≡ some t) × (names t ≡ name_of c ∷ names r)

module _ (prom : Prometheus) where
  open prom use {Registry, Collector, new_registry, with_opts, register, encode}

  -- The `with_opts` calls, and then the `register` calls.
  unfoldable pub create_all : List Opts → Option (List Collector)
  create_all [] = some []
  create_all (o ∷ os) = Option.bind (with_opts o) (λ c. Option.map (λ cs. c ∷ cs) (create_all os))

  unfoldable pub register_all : List Collector → Registry → Option Registry
  register_all [] r = some r
  register_all (c ∷ cs) r = Option.bind (register c r) (register_all cs)

  unfoldable pub registered_new : Option Registry
  unfolding create_all register_all
  registered_new = Option.bind (create_all metric_opts) (λ cs. register_all cs new_registry)

  unfoldable pub render : Registry → Text
  render r = get_or (encode r) []
