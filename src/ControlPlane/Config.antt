-- ===== src/ControlPlane/Config.antt =====
-- control-plane/src/config.rs: the configuration of the control plane and its defaults.
use ghostcacher.Prelude.{ℕ}
use ghostcacher.F32.{F32}
use ghostcacher.Text.{Text, lit}

pub record ControlPlaneConfig : Type 0 where
  pub listen_addr : Text
  pub redis_url : Text
  pub eviction_interval_secs : ℕ
  pub max_cache_entries : ℕ
  pub hbm_swap_threshold : F32

-- The bits of 0.85.
abbrev pub default_hbm_swap : F32
default_hbm_swap = 0x3f59_999a

abbrev pub control_plane_default : ControlPlaneConfig
control_plane_default = record {
  listen_addr = lit "0.0.0.0:7070";
  redis_url = lit "redis://redis:6379";
  eviction_interval_secs = 300;
  max_cache_entries = 10_000;
  hbm_swap_threshold = default_hbm_swap;
}
