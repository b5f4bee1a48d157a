-- ===== src/Startup/Sidecar.antt =====
-- When the sidecar starts, and with which configuration.
use mathlib.Core.Option.{get_or}
use ghostcacher.Prelude.{◌≡◌, refl, some, true}
use ghostcacher.Text.{lit}
use ghostcacher.Exec.{ok, ◌>>=◌}
use ghostcacher.Config.{default_config}
use ghostcacher.Config.Environment.{load_sidecar}
use ghostcacher.RedisClient.Connect.{connect}
use ghostcacher.Metrics.Registration.Created.{registered_new_ok}
use ghostcacher.Interceptor.Handler.{new_state}
use ghostcacher.Startup.{Services, start_sidecar}

module _ (services : Services) where
  open services use {world, open_client, ping, crate, prom, Addr, parse}

  -- The sidecar starts where the environment can be read, Redis answers the ping and both addresses
  -- are addresses: the metrics are no obstacle. If what was read is no configuration, as when one
  -- value has the wrong type, it starts all the same, with all the defaults in place of what was
  -- set.
  pub start_sidecar_ok :
      (read : crate.Config) (listen metrics : Addr) (s : world.Store) {t u : world.Store}
      → crate.build (lit "GC") (lit "_") true ≡ some read
      → open_client (get_or (crate.sidecar_config read) default_config).redis_url ≡ some tt
      → world.conn s ≡ (ok tt, t)
      → ping t ≡ (ok tt, u)
      → parse (get_or (crate.sidecar_config read) default_config).listen_addr ≡ some listen
      → parse (get_or (crate.sidecar_config read) default_config).metrics_addr ≡ some metrics
      → (registry : prom.Registry) × (start_sidecar services s ≡ (
        ok (record {
          state = new_state (get_or (crate.sidecar_config read) default_config);
          registry = registry;
          listen = listen;
          metrics_listen = metrics;
        }),
        u,
      ))
  unfolding start_sidecar load_sidecar connect ◌>>=◌
  start_sidecar_ok read listen metrics s built opened connected pinged at metrics_at =
      let (registry, registered, names) = registered_new_ok prom in
      (
        registry,
        rw built
            (rw opened (rw connected (rw pinged (rw registered (rw at (rw metrics_at refl)))))),
      )
