-- ===== src/Provider/PassThrough.antt =====
-- sidecar/src/provider.rs: the bodies that the adapters do not touch.
use ghostcacher.Prelude.{◌≡◌, none, some, List, refl}
use ghostcacher.Text.{Bytes}
use ghostcacher.Types.{LlmProvider, anthropic, open_ai, bedrock, vertex, self_hosted, PromptBlock}
use ghostcacher.Json.{SerdeJson}
use ghostcacher.Provider.{
  inject_anthropic, inject_openai, inject_bedrock, inject_vertex, inject_cache_headers,
}

-- A body that is no JSON goes on unchanged, whatever the provider, and never makes the code panic.
pub inject_cache_headers_unparsed :
    (sj : SerdeJson) (provider : LlmProvider) (body : Bytes) (blocks : List PromptBlock)
    → sj.from_slice body ≡ none
    → inject_cache_headers sj provider body blocks ≡ some body
unfolding inject_cache_headers inject_anthropic inject_openai inject_bedrock inject_vertex
inject_cache_headers_unparsed sj anthropic body blocks h =
    rw (h, inject_cache_headers, inject_anthropic) refl
inject_cache_headers_unparsed sj open_ai body blocks h =
    rw (h, inject_cache_headers, inject_openai) refl
inject_cache_headers_unparsed sj bedrock body blocks h =
    rw (h, inject_cache_headers, inject_bedrock) refl
inject_cache_headers_unparsed sj vertex body blocks h = refl
inject_cache_headers_unparsed sj self_hosted body blocks h = refl
