-- ===== src/Types.antt =====
-- sidecar/src/types.rs: the domain types that the sidecar's modules share.
-- Machine integers are natural numbers; the operations on them write the wrap-around out.
use ghostcacher.Prelude.{ℕ, Bool, true, false, Option, none, some, if◌then◌else◌}
use ghostcacher.Prelude.Int.{ℤ}
use ghostcacher.Text.{Text, lit, contains}

pub data BlockKind : Type 0 where
  system tools document user : BlockKind

unfoldable pub is_cacheable : BlockKind → Bool
is_cacheable user = false
is_cacheable _ = true

unfoldable pub eviction_priority : BlockKind → ℕ
eviction_priority system = 1000
eviction_priority tools = 900
eviction_priority document = 500
eviction_priority user = 0

pub record PromptBlock : Type 0 where
  pub kind : BlockKind
  pub content : Text
  pub hash : Option Text

pub data CacheLookupResult : Type 0 where
  hit : Text → Text → ℕ → CacheLookupResult
  partial_hit : Text → Text → ℕ → CacheLookupResult
  miss : Text → Text → CacheLookupResult

pub data LlmProvider : Type 0 where
  anthropic open_ai bedrock vertex self_hosted : LlmProvider

unfoldable pub from_upstream_url : Text → LlmProvider
from_upstream_url url =
    if contains (lit "anthropic") url
    then anthropic
    else if contains (lit "openai") url
    then open_ai
    else if contains (lit "amazonaws") url
    then bedrock
    else if contains (lit "googleapis") url
    then vertex
    else self_hosted

pub data TtlPolicy : Type 0 where
  infinite : TtlPolicy
  fixed : ℕ → TtlPolicy
  sliding : ℕ → TtlPolicy

unfoldable pub redis_ttl_secs : TtlPolicy → Option ℕ
redis_ttl_secs infinite = none
redis_ttl_secs (fixed secs) = some secs
redis_ttl_secs (sliding window_secs) = some window_secs

pub record CacheEntry : Type 0 where
  pub prefix_hash : Text
  pub pod_ip : Text
  pub pod_id : Text
  pub block_count : ℕ
  pub token_count : ℕ
  pub hit_count : ℕ
  pub created_at : ℤ
  pub last_hit_at : ℤ
  pub ttl_policy : TtlPolicy

-- No code makes or reads the next two; the id is the crate `uuid`'s, and F64 stands for `f64`.
pub record RoutingDecision (Uuid : Type 0) : Type 0 where
  pub request_id : Uuid
  pub lookup_result : CacheLookupResult
  pub prefix_hash : Text
  pub provider : LlmProvider
  pub tokens_saved : ℕ
  pub ttft_delta_ms : ℤ

pub record MetricSnapshot (F64 : Type 0) : Type 0 where
  pub cache_hit_ratio : F64
  pub total_hits : ℕ
  pub total_misses : ℕ
  pub saved_ttft_ms_avg : F64
  pub tokens_cached : ℕ
  pub active_entries : ℕ
  pub rdma_transfers : ℕ
