-- ===== src/Startup.antt =====
-- sidecar/src/main.rs: the start of the sidecar up to the binding of its sockets, and how its two
-- servers end. Logging and the servers are left out. The child modules start the other services.
pub mod Sidecar
pub mod Spawning
mod Tests
use mathlib.Core.Option
use ghostcacher.Prelude.{ℕ, Option}
use ghostcacher.Text.{Text}
use ghostcacher.Exec.{Exec, Result, ok, start_error, ◌>>=◌, ◌>>◌, pure, lift}
use ghostcacher.World.{World}
use ghostcacher.Config.Environment.{ConfigCrate, load_sidecar}
use ghostcacher.Metrics.Registration.{Prometheus, registered_new}
use ghostcacher.RedisClient.Connect.{connect}
use ghostcacher.Interceptor.Handler.{InterceptorState, new_state}

-- The crates that the start calls; `parse` reads a `SocketAddr`.
pub record Services : Type 1 where
  pub world : World
  pub open_client : Text → Option (Unit {0})
  pub ping : Exec world.Store (Unit {0})
  pub crate : ConfigCrate
  pub prom : Prometheus
  pub Addr : Type 0
  pub parse : Text → Option Addr

module _ (services : Services) where
  open services use {world, open_client, ping, crate, prom, Addr, parse}

  pub record Started : Type 0 where
    pub state : InterceptorState
    pub registry : prom.Registry
    pub listen : Addr
    pub metrics_listen : Addr

  unfoldable pub start_sidecar : Exec world.Store Started
  start_sidecar = do
    cfg ← lift start_error (load_sidecar crate)
    connect world open_client ping cfg.redis_url
    metrics ← lift start_error (registered_new prom)
    listen_at ← lift start_error (parse cfg.listen_addr)
    metrics_at ← lift start_error (parse cfg.metrics_addr)
    pure (record {
      state = new_state cfg;
      registry = metrics;
      listen = listen_at;
      metrics_listen = metrics_at;
    })

-- A future, by what it has returned after n polls, if it has.
abbrev pub Future : Type 0
Future = ℕ → Option (Result (Unit {0}))

-- `proxy_result?; metrics_result?; Ok(())`
unfoldable pub first_error : Result (Unit {0}) → Result (Unit {0}) → Result (Unit {0})
first_error (ok u) metrics_result = metrics_result
first_error proxy_result metrics_result = proxy_result

-- `tokio::join!` of the two servers: it is over when both are.
unfoldable pub serve_both : Future → Future → Future
unfolding first_error
serve_both proxy metrics n = Option.bind (proxy n) (λ proxy_result.
    Option.map (λ metrics_result. first_error proxy_result metrics_result) (metrics n))
