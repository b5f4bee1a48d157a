-- ===== src/Interceptor/Forward/Headers.antt =====
-- The headers that go on to the upstream server, and those that come back.
use ghostcacher.Prelude.{
  ◌≡◌, refl, ap, ◌∙◌, sym, ℕ, true, Option, some, inl, inr, List, [], ◌∷◌, arith, if◌then◌else◌,
  Bool-cases,
}
use mathlib.Core.Option.{get_or}
use ghostcacher.Text.{Text, Bytes, lit, text_eq}
use ghostcacher.Text.Laws.{text_eq_iff}
use ghostcacher.Config.{SidecarConfig}
use ghostcacher.Http.{Http, values}
use ghostcacher.Interceptor.Forward.{
  Response, without_host, copy_headers, outgoing, respond, forward_raw,
}

-- The last of some values alone.
abbrev pub last_only : List Bytes → List Bytes → List Bytes
last_only before [] = before
last_only before (v ∷ vs) = last_only (v ∷ []) vs

-- Of the headers all but `host` go on, each with all of its values in their order. This holds of
-- `content-length` too, whatever the body that they go with.
pub values-without_host :
    (k : Text) (headers : List (Text × Bytes))
    → values k (without_host headers) ≡ (if text_eq k (lit "host") then [] else values k headers)
unfolding without_host
values-without_host k [] = ground arith
values-without_host k ((j, v) ∷ headers) = ground (
  arith,
  text_eq_iff j k,
  text_eq_iff j (lit "host"),
  text_eq_iff k (lit "host"),
  values-without_host k headers,
)

module _ (http : Http) where
  values-copy_headers :
      (k : Text) (headers : List (Text × Bytes)) (m : http.HeaderMap)
      → values k (http.iter (copy_headers http headers m))
        ≡ last_only (values k (http.iter m)) (values k headers)
  unfolding copy_headers
  values-copy_headers k [] m = refl
  values-copy_headers k ((j, v) ∷ headers) m = elim (Bool-cases (text_eq j k)) [
    | inl e ↦
        values-copy_headers k headers (http.insert j v m)
        ∙ cc (e, (text_eq_iff j k).0 e, http.insert_same j v m)
    | inr e ↦
        values-copy_headers k headers (http.insert j v m)
        ∙ ap (λ vs. last_only vs (values k headers)) (http.insert_other j k v m e)
        ∙ ap
            (λ b.
              last_only (values k (http.iter m))
                (if b then v ∷ values k headers else values k headers))
            (sym e)
  ]

  -- If the client can be built, a request that the upstream server answers gives a response with
  -- the answer's status and body and, under each name, the last of the answer's values alone; a
  -- body that cannot be read becomes empty.
  pub forward_raw_ok :
      (cfg : SidecarConfig) (headers : http.HeaderMap) (body : Bytes) (url : Option Text)
      {status : ℕ} {resp_headers : http.HeaderMap} {resp_body : Option Bytes}
      → http.builds cfg.request_timeout_secs ≡ true
      → http.send (outgoing http cfg headers body url) ≡ inr (status, resp_headers, resp_body)
      → (r : Response http) × (forward_raw http cfg headers body url ≡ some r)
        × (r.status ≡ status)
        × (r.body ≡ get_or resp_body [])
        × ((k : Text)
            → values k (http.iter r.headers) ≡ last_only [] (values k (http.iter resp_headers)))
  unfolding forward_raw respond
  forward_raw_ok cfg headers body url {status} {resp_headers} {resp_body} b e = (
    record {
      status = status;
      headers = copy_headers http (http.iter resp_headers) http.no_headers;
      body = get_or resp_body [];
    },
    ground (arith, b, e),
    refl,
    refl,
    λ k.
        values-copy_headers k (http.iter resp_headers) http.no_headers
        ∙ ap (λ hs. last_only (values k hs) (values k (http.iter resp_headers)))
            http.iter-no_headers,
  )
