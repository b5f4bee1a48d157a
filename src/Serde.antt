-- ===== src/Serde.antt =====
-- What the crates `serde_json` and `redis` read and write: entries as JSON, loads as numbers.
-- An interface with the round trip that the derived implementations document.
pub mod Sample
use ghostcacher.Prelude.{◌≡◌, Option, some}
use ghostcacher.Text.{Text}
use ghostcacher.F32.{F32}
use ghostcacher.Types.{CacheEntry}

pub record Serde : Type 0 where
  -- `serde_json::to_string(&entry)` and `serde_json::from_str`; `none` is an error.
  pub to_string : CacheEntry → Option Text
  pub from_str : Text → Option CacheEntry
  pub from_str-to_string : {e : CacheEntry} {t : Text} → to_string e ≡ some t → from_str t ≡ some e
  -- `FromRedisValue for f32`.
  pub parse_f32 : Text → Option F32
