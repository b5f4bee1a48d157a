-- ===== src/Startup/Spawning.antt =====
-- control-plane/src/main.rs and kv-relay/src/main.rs: the starts of the two services up to the
-- binding of their sockets, with the tasks that they spawn on the way.
pub mod Started
use ghostcacher.Prelude.{Option, none, some, List, [], ◌∷◌, if◌then◌else◌, Bool, ◌||◌}
use ghostcacher.Text.{Text, lit, text_eq}
use ghostcacher.Exec.{Exec, ok, start_error, ◌>>=◌, ◌>>◌, pure, lift}
use ghostcacher.Config.Environment.{load_control_plane, load_relay}
use ghostcacher.ControlPlane.Config.{ControlPlaneConfig}
use ghostcacher.ControlPlane.Background.{Background, eviction_loop, health_check_loop}
use ghostcacher.Relay.{KvRelayService, new_relay}
use ghostcacher.RedisClient.Connect.{new_registry}
use ghostcacher.Startup.{Services}

-- The registry holds its client, which only has the URL here.
pub record PodRegistry : Type 0 where
  pub client : Text

pub record EvictionEngine : Type 0 where
  pub pods : PodRegistry
  pub cfg : ControlPlaneConfig

abbrev pub new_engine : PodRegistry → ControlPlaneConfig → EvictionEngine
new_engine pods cfg = record { pods = pods; cfg = cfg }

pub record AppState : Type 0 where
  pub cfg : ControlPlaneConfig
  pub pods : PodRegistry
  pub eviction : EvictionEngine

module _ (services : Services) where
  open services use {world, open_client, ping, crate, Addr, parse}

  pub data Task : Type 0 where
    loop : Background → Task
    grpc_server : KvRelayService → Addr → Task

  -- The store, and the tasks that were spawned, the newest first.
  pub record Process : Type 0 where
    pub store : world.Store
    pub spawned : List Task

  abbrev pub on_world : {A : Type 0} → Exec world.Store A → Exec Process A
  on_world m p = let (r, s) = m p.store in (r, record p { store = s })

  abbrev pub spawn : Task → Exec Process (Unit {0})
  spawn task p = (ok tt, record p { spawned = task ∷ p.spawned })

  unfoldable pub start_control_plane : Exec Process (AppState × Addr)
  start_control_plane = do
    cfg ← lift start_error (load_control_plane crate)
    on_world (new_registry world open_client ping cfg.redis_url)
    spawn (loop eviction_loop)
    spawn (loop health_check_loop)
    addr ← lift start_error (parse cfg.listen_addr)
    pure (
      record {
        cfg = cfg;
        pods = record { client = cfg.redis_url };
        eviction = new_engine (record { client = cfg.redis_url }) cfg;
      },
      addr,
    )

  unfoldable pub start_relay : Exec Process (KvRelayService × Addr)
  start_relay = do
    cfg ← lift start_error (load_relay crate)
    relay_svc ← new_relay cfg
    grpc_addr ← lift start_error (parse cfg.grpc_addr)
    spawn (grpc_server relay_svc grpc_addr)
    http_addr ← lift start_error (parse cfg.http_addr)
    pure (relay_svc, http_addr)

-- The relay's health server, by the path of a request.
unfoldable pub relay_health : Text → Option Text
relay_health path =
    if text_eq path (lit "/healthz") || text_eq path (lit "/readyz") then some (lit "ok") else none
