-- ===== src/RedisClient/Kept.antt =====
-- What a lookup leaves alone: a relation between stores that its commands keep, whatever it is.
use ghostcacher.Prelude.{Option, none, some}
use ghostcacher.Prelude.Int.{ℤ, as_i64}
use ghostcacher.Text.{Text}
use ghostcacher.Types.{TtlPolicy, infinite, fixed, sliding}
use ghostcacher.Exec.{serde_error}
use ghostcacher.Exec.Frame.{Keeps, IsFrame, bind-Keeps, lift-Keeps}
use ghostcacher.Serde.{Serde}
use ghostcacher.World.{World}
use ghostcacher.RedisClient.{cache_key, touch, refresh, lookup_found, lookup_raw, lookup}

-- The commands of a lookup keep the relation.
pub record LookupKeeps (w : World) (R : w.Store → w.Store → Type 0) : Type 0 where
  pub frame : IsFrame R
  pub conn_kept : Keeps R w.conn
  pub get_kept : (k : Text) → Keeps R (w.get k)
  pub set_kept : (h v : Text) → Keeps R (w.set (cache_key h) v)
  pub expire_kept : (h : Text) (n : ℤ) → Keeps R (w.expire (cache_key h) n)

module _ (w : World) (serde : Serde) (R : w.Store → w.Store → Type 0) (kept : LookupKeeps w R)
    (h : Text) where
  open kept use {frame}

  refresh-Keeps : (policy : TtlPolicy) → Keeps R (refresh w serde (cache_key h) policy)
  unfolding refresh
  refresh-Keeps infinite = λ s. frame.stays s
  refresh-Keeps (fixed n) = λ s. frame.stays s
  refresh-Keeps (sliding n) = kept.expire_kept h (as_i64 n)

  lookup_found-Keeps : (json : Text) → Keeps R (lookup_found w serde (cache_key h) json)
  unfolding lookup_found
  lookup_found-Keeps json =
      bind-Keeps _ frame _ _ (lift-Keeps _ frame serde_error (serde.from_str json)) λ entry.
        bind-Keeps _ frame _ _ (refresh-Keeps entry.ttl_policy) λ u.
          bind-Keeps _ frame _ _ (λ s. frame.stays s)
            λ now.
              bind-Keeps _ frame _ _
                (lift-Keeps _ frame serde_error (serde.to_string (touch now entry)))
                λ updated. bind-Keeps _ frame _ _ (kept.set_kept h updated) λ v s. frame.stays s

  lookup_raw-Keeps : (raw : Option Text) → Keeps R (lookup_raw w serde (cache_key h) raw)
  unfolding lookup_raw
  lookup_raw-Keeps none = λ s. frame.stays s
  lookup_raw-Keeps (some json) = lookup_found-Keeps json

  pub lookup-Keeps : Keeps R (lookup w serde h)
  unfolding lookup
  lookup-Keeps =
      bind-Keeps _ frame _ _ kept.conn_kept
        λ u. bind-Keeps _ frame _ _ (kept.get_kept (cache_key h)) λ raw. lookup_raw-Keeps raw
