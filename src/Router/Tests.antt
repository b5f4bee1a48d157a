-- ===== src/Router/Tests.antt =====
-- Instances of the theorems on the sidecar's endpoints, at a server in memory.
use ghostcacher.Prelude.{refl, true, [], ◌∷◌}
use ghostcacher.Text.{lit}
use ghostcacher.F32.{F32}
use ghostcacher.Crypto.Sample.{toy}
use ghostcacher.Float.Sample.{coarse}
use ghostcacher.Http.Sample.{echo}
use ghostcacher.Json.{Value, null, num}
use ghostcacher.Json.Sample.{shapes}
use ghostcacher.World.Memory.{memory, empty, memory_confined}
use ghostcacher.Serde.Sample.{plain}
use ghostcacher.Config.{default_config}
use ghostcacher.Metrics.{new_metrics}
use ghostcacher.RedisClient.{cache_key, lock_key}
use ghostcacher.Interceptor.Handler.{Deps, Sidecar, new_state}
use ghostcacher.Router.{gc_flush, Reply, page, ready_page, ready_handler, serve}
use ghostcacher.Router.Probes.{Untouched, serve-Untouched}

abbrev deps : Deps
deps = record { world = memory; serde = plain; sj = shapes; sha = toy; fl = coarse; http = echo }

abbrev sidecar : Sidecar deps
sidecar = record { store = empty 1000; metrics = new_metrics coarse; spawned = [] }

abbrev bits : F32 → Value
bits x = num (x ∷ [])

abbrev ready : Reply deps bits
ready = page (ready_page true)

abbrev probed : Sidecar deps
probed = (ready_handler deps bits sidecar).1

serve-Untouched_example :
    Untouched deps bits
      (cache_key (lit "ab"))
      sidecar
      (serve deps bits (new_state default_config) (gc_flush null) sidecar).1
    × Untouched deps bits
        (lock_key (lit "ab"))
        sidecar
        (serve deps bits (new_state default_config) (gc_flush null) sidecar).1
serve-Untouched_example =
    serve-Untouched deps bits memory_confined (new_state default_config) (gc_flush null) (lit "ab")
      sidecar refl
