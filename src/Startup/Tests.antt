-- ===== src/Startup/Tests.antt =====
-- An instance of the theorem on the start: the environment is read, but is no configuration.
use ghostcacher.Prelude.{◌≡◌, refl, none, some, List}
use ghostcacher.Text.{Text}
use ghostcacher.Exec.{ok}
use ghostcacher.World.Memory.{Memory, memory, empty}
use ghostcacher.Config.{default_config}
use ghostcacher.Config.Environment.{ConfigCrate}
use ghostcacher.Metrics.Registration.Sample.{listed}
use ghostcacher.Interceptor.Handler.{new_state}
use ghostcacher.Startup.{Services, start_sidecar}
use ghostcacher.Startup.Sidecar.{start_sidecar_ok}

abbrev unreadable : ConfigCrate
unreadable = record {
  Config = Unit {0};
  build = λ prefix separator parsing. some tt;
  sidecar_config = λ c. none;
  control_plane_config = λ c. none;
  relay_config = λ c. none;
}

abbrev services : Services
services = record {
  world = memory;
  open_client = λ url. some tt;
  ping = λ s. (ok tt, s);
  crate = unreadable;
  prom = listed;
  Addr = Text;
  parse = λ t. some t;
}

abbrev start : Memory
start = empty 1000

start_sidecar_ok_example :
    (registry : List Text) × (start_sidecar services start ≡ (
      ok (record {
        state = new_state default_config;
        registry = registry;
        listen = default_config.listen_addr;
        metrics_listen = default_config.metrics_addr;
      }),
      start,
    ))
start_sidecar_ok_example =
    start_sidecar_ok services tt default_config.listen_addr default_config.metrics_addr start
      {t = start} {u = start} refl refl refl refl refl refl
