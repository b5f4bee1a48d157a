-- ===== src/Config/Environment.antt =====
-- The functions `load` of the three configurations: sidecar/src/config.rs,
-- control-plane/src/config.rs and kv-relay/src/config.rs. What the crate `config` reads from the
-- environment is an interface.
use mathlib.Core.Option
use mathlib.Core.Option.{get_or}
use ghostcacher.Prelude.{Bool, true, Option}
use ghostcacher.Text.{Text, lit}
use ghostcacher.Config.{SidecarConfig, default_config}
use ghostcacher.ControlPlane.Config.{ControlPlaneConfig, control_plane_default}
use ghostcacher.Relay.{RelayConfig, relay_default}

-- `Config::builder().add_source(Environment::with_prefix(..).separator(..).try_parsing(..)).build()`
-- and `try_deserialize`; `none` is an error.
pub record ConfigCrate : Type 1 where
  pub Config : Type 0
  pub build : Text → Text → Bool → Option Config
  pub sidecar_config : Config → Option SidecarConfig
  pub control_plane_config : Config → Option ControlPlaneConfig
  pub relay_config : Config → Option RelayConfig

module _ (crate : ConfigCrate) where
  open crate use {build, sidecar_config, control_plane_config, relay_config}

  unfoldable pub load_sidecar : Option SidecarConfig
  load_sidecar =
      Option.map (λ cfg. get_or (sidecar_config cfg) default_config)
        (build (lit "GC") (lit "_") true)

  unfoldable pub load_control_plane : Option ControlPlaneConfig
  load_control_plane =
      Option.map (λ cfg. get_or (control_plane_config cfg) control_plane_default)
        (build (lit "GC_CP") (lit "_") true)

  unfoldable pub load_relay : Option RelayConfig
  load_relay =
      Option.map (λ cfg. get_or (relay_config cfg) relay_default)
        (build (lit "GC_RELAY") (lit "_") true)
