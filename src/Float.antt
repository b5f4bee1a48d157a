-- ===== src/Float.antt =====
-- The 64-bit floating-point operations of the sidecar's estimates and of the eviction's scores, as an
-- interface without laws; `Binary64` is the exact instance.
pub mod Sample
pub mod Binary64
use ghostcacher.Prelude.{ℕ, Bool}

pub record Float : Type 1 where
  pub F64 : Type 0
  -- `n as f64`.
  pub of_u64 : ℕ → F64
  -- The literal with the decimal digits n, the last d of them behind the point.
  pub literal : ℕ → ℕ → F64
  pub div : F64 → F64 → F64
  pub mul : F64 → F64 → F64
  pub sub : F64 → F64 → F64
  pub max : F64 → F64 → F64
  pub is_nan : F64 → Bool
  -- `a.partial_cmp(&b)` is not `Greater`, for numbers that are not NaN.
  pub le : F64 → F64 → Bool
  pub ceil : F64 → F64
  pub round : F64 → F64
  -- `x as u32`, `x as u64`; both saturate.
  pub as_u32 : F64 → ℕ
  pub as_u64 : F64 → ℕ
