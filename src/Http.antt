-- ===== src/Http.antt =====
-- The crates `axum`, `http` and `reqwest`, which sidecar/src/interceptor.rs calls: an interface.
-- A body can fail to be read; a request that is sent can fail. Nothing here is code of the
-- repository.
pub mod Sample
use ghostcacher.Prelude.{
  ℕ, ◌≡◌, false, Bool, true, ◌⊎◌, Option, none, some, List, [], ◌∷◌, if◌then◌else◌,
}
use ghostcacher.Text.{Text, Bytes, text_eq}

-- The values under a name, in their order.
abbrev pub values : Text → List (Text × Bytes) → List Bytes
values k [] = []
values k ((j, v) ∷ hs) = let rest = values k hs in if text_eq j k then v ∷ rest else rest

-- A request to the upstream server.
pub record Outgoing : Type 0 where
  pub url : Text
  pub headers : List (Text × Bytes)
  pub body : Bytes
  pub timeout_secs : ℕ

pub record Http : Type 1 where
  -- `HeaderMap`: its pairs as it iterates over them.
  pub HeaderMap : Type 0
  pub iter : HeaderMap → List (Text × Bytes)
  pub no_headers : HeaderMap
  pub insert : Text → Bytes → HeaderMap → HeaderMap
  pub iter-no_headers : iter no_headers ≡ []
  -- `insert` leaves one value under its name.
  pub insert_same : (k : Text) (v : Bytes) (m : HeaderMap) → values k (iter (insert k v m)) ≡ v ∷ []
  pub insert_other :
      (k j : Text) (v : Bytes) (m : HeaderMap)
      → text_eq k j ≡ false
      → values j (iter (insert k v m)) ≡ values j (iter m)
  pub Body : Type 0
  -- `axum::body::to_bytes` with its limit; `none` is an error.
  pub to_bytes : Body → ℕ → Option Bytes
  -- Whether `Client::builder().timeout(..).build()` succeeds.
  pub builds : ℕ → Bool
  pub Failure : Type 0
  pub display : Failure → Text
  -- `send()`: a failure, or the status, the headers and what `bytes()` gives, `none` for an error.
  pub send : Outgoing → Failure ⊎ (ℕ × HeaderMap × Option Bytes)
  -- The headers of `(status, text).into_response()`.
  pub text_headers : HeaderMap
