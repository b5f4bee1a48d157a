-- ===== src/Config.antt =====
-- sidecar/src/config.rs: the sidecar's configuration and its defaults. Reading the environment is
-- left to the crate `config`.
pub mod Environment
use ghostcacher.Prelude.{ℕ, Bool, true}
use ghostcacher.F32.{F32}
use ghostcacher.Text.{Text, lit}

pub record SidecarConfig : Type 0 where
  pub listen_addr : Text
  pub metrics_addr : Text
  pub upstream_url : Text
  pub redis_url : Text
  pub default_pod_ip : Text
  pub pod_port : ℕ
  pub pod_path : Text
  pub request_timeout_secs : ℕ
  pub hbm_swap_threshold : F32
  pub ghost_lock_timeout_secs : ℕ
  pub rdma_enabled : Bool
  pub log_level : Text

-- The bits of 0.85.
abbrev pub default_hbm_threshold : F32
default_hbm_threshold = 0x3f59_999a

abbrev pub default_config : SidecarConfig
default_config = record {
  listen_addr = lit "0.0.0.0:8080";
  metrics_addr = lit "0.0.0.0:9090";
  upstream_url = lit "https://api.anthropic.com/v1/messages";
  redis_url = lit "redis://redis:6379";
  default_pod_ip = lit "127.0.0.1";
  pod_port = 8000;
  pod_path = lit "/v1/messages";
  request_timeout_secs = 120;
  hbm_swap_threshold = default_hbm_threshold;
  ghost_lock_timeout_secs = 30;
  rdma_enabled = true;
  log_level = lit "info";
}
