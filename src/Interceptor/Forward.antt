-- ===== src/Interceptor/Forward.antt =====
-- sidecar/src/interceptor.rs: sending a request on, and the response that goes back.
pub mod Headers
use mathlib.Core.Option.{get_or}
use ghostcacher.Prelude.{
  ℕ, Bool, true, false, not, Option, none, some, ◌⊎◌, inl, inr, List, [], ◌∷◌, ◌++◌, if◌then◌else◌,
}
use ghostcacher.Text.{Text, Bytes, lit, text_eq, as_bytes}
use ghostcacher.Config.{SidecarConfig}
use ghostcacher.Http.{Http, Outgoing}

-- The headers of the request but its `host`, in their order.
unfoldable pub without_host : List (Text × Bytes) → List (Text × Bytes)
without_host [] = []
without_host ((name, val) ∷ headers) =
    let rest = without_host headers in
    if not (text_eq name (lit "host")) then (name, val) ∷ rest else rest

module _ (http : Http) where
  pub record Response : Type 0 where
    pub status : ℕ
    pub headers : http.HeaderMap
    pub body : Bytes

  -- `(status, text).into_response()`
  abbrev pub text_response : ℕ → Text → Response
  text_response status text = record {
    status = status;
    headers = http.text_headers;
    body = as_bytes text;
  }

  -- `for (k, v) in &resp_headers { response.headers_mut().insert(k, v.clone()); }`
  unfoldable pub copy_headers : List (Text × Bytes) → http.HeaderMap → http.HeaderMap
  copy_headers [] m = m
  copy_headers ((k, v) ∷ headers) m = copy_headers headers (http.insert k v m)

  unfoldable pub outgoing : SidecarConfig → http.HeaderMap → Bytes → Option Text → Outgoing
  unfolding without_host
  outgoing cfg headers body url = record {
    url = get_or url cfg.upstream_url;
    headers = without_host (http.iter headers);
    body = body;
    timeout_secs = cfg.request_timeout_secs;
  }

  -- The match on `send()`.
  unfoldable pub respond : http.Failure ⊎ (ℕ × http.HeaderMap × Option Bytes) → Response
  unfolding copy_headers
  respond (inr (status, resp_headers, resp_body)) = record {
    status = status;
    headers = copy_headers (http.iter resp_headers) http.no_headers;
    body = get_or resp_body [];
  }
  respond (inl e) = text_response 502 (lit "Upstream error: " ++ http.display e)

  -- `none` is the panic of a client that cannot be built.
  unfoldable pub forward_raw :
      SidecarConfig → http.HeaderMap → Bytes → Option Text → Option Response
  unfolding outgoing respond
  forward_raw cfg headers body url =
      if http.builds cfg.request_timeout_secs
      then some (respond (http.send (outgoing cfg headers body url)))
      else none
