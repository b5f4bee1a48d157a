-- ===== src/RedisClient/Connect.antt =====
-- How a service connects: `connect` of sidecar/src/redis_client.rs and `new` of
-- control-plane/src/pod_registry.rs, each of which opens a client and pings the server.
use ghostcacher.Prelude.{Option}
use ghostcacher.Text.{Text}
use ghostcacher.Exec.{Exec, redis_error, ◌>>◌, lift}
use ghostcacher.World.{World}

-- `Client::open` only reads the URL; the client is the world.
module _ (w : World) (open_client : Text → Option (Unit {0})) (ping : Exec w.Store (Unit {0})) where
  unfoldable pub connect : Text → Exec w.Store (Unit {0})
  connect url = do lift redis_error (open_client url); w.conn; ping

  unfoldable pub new_registry : Text → Exec w.Store (Unit {0})
  new_registry redis_url = do lift redis_error (open_client redis_url); w.conn; ping
