-- ===== src/Lib.antt =====
-- GhostCacher. Its sidecar is a proxy between clients and servers of language models: it hashes the
-- stable part of each prompt, looks up in Redis which pod has that prefix warm, sends the request
-- there, and records new prefixes. Its control plane keeps a registry of the pods in Redis and
-- offers an administration API.
--
-- Parts, from the bottom up:
--   Prelude          shared names, lists, sorting, 64-bit integers
--   Text             Rust's `str` as code points: trim, split, words, order, UTF-8
--   Crypto, Float, F32, Serde, Json, Http, World
--                    what comes from crates and services: interfaces with the documented behaviour
--                    that the code relies on, each with an instance in a child module. Json's values
--                    and their accessors are written out, as serde_json documents them.
--   Exec             code that changes a store and may return an error or panic
--   Types            sidecar/src/types.rs
--   Config           sidecar/src/config.rs; Environment is the function load of all three
--                    configurations
--   Hasher           sidecar/src/hasher.rs: canonicalize, hash_block, hash_prompt_blocks
--   RedisClient      sidecar/src/redis_client.rs: lookup, write, the Ghost-Lock, the pod loads
--                    Plane is what these operations promise: entries with their times to live,
--                    and locks, with the operations as calls on them
--   Provider         sidecar/src/provider.rs: inject_cache_headers and its adapters
--   Metrics          sidecar/src/metrics.rs: the counters and gauges; Registration is their creation
--   Interceptor      sidecar/src/interceptor.rs: Extract (extract_*_blocks), Policy
--                    (infer_ttl_policy, pod_url), Forward (forward_raw), Handler
--                    (intercept_handler, cold_miss_target, and the spawned task); Contention is
--                    the requests of several sidecars for one prefix, as a step relation on
--                    threads that share the store, and Traffic the requests of one sidecar, with
--                    the tasks and all else that writes to Redis between them
--   Router           sidecar/src/router.rs: the sidecar's endpoints
--   PodRegistry      control-plane/src/pod_registry.rs: the registry of the GPU pods, on the
--                    interface Hashes to the hashes of Redis; Roster is what it promises: the
--                    entry of each pod, changed by heartbeats, removals and checks
--   ControlPlane     control-plane/src/config.rs, eviction.rs, admin.rs and the routes of main.rs:
--                    Config, Eviction, Admin; Background is the loops that main.rs spawns, their
--                    rounds interleaved with requests
--   Relay            kv-relay/src/config.rs, transfer.rs and relay.rs: the service, the transfer
--                    types and the simulated transfers
--   Startup          sidecar/src/main.rs, and with Spawning control-plane/src/main.rs and
--                    kv-relay/src/main.rs: the start of the services up to the binding of their
--                    sockets, with the tasks that they spawn
-- Numbers `f64` are the interface Float; Float.Binary64 is its instance for the arithmetic of IEEE
-- 754, executable, with subnormal numbers, infinities and NaN, on which the estimates are computed.
-- Hasher.Asserts has the unit tests of hasher.rs as functions of the hash.
-- The handler extracts the blocks (Extract), hashes them (Hasher), looks the hash up and takes the
-- lock (RedisClient), counts (Metrics), adapts the body (Provider) and forwards it (Forward). The
-- task that a miss spawns is kept in the state, and `run_task` is what it does when it runs. The
-- administration API calls PodRegistry and Eviction; what it leaves alone is stated on the keys of
-- RedisClient, with the interface World.Confined (commands touch no key but their own).
--
-- How code becomes definitions: a loop is recursion on its list, the retry loop of
-- await_ghost_lock_release on the rounds left, eight of them, as in the code. `u32` and `u64` sums
-- are taken modulo 2 ^ 32 and 2 ^ 64, as a release build does. The registry's endless health check
-- is its one round, the endless eviction loop its first n rounds. The digits of a port number have
-- fuel 20, enough for 64 bits. A panic is a result of its own. Redis is the interface `World`: of a
-- command that succeeds its effect is known, of one that fails nothing, and others act during
-- sleeps. What else theorems rely on of Redis is in interfaces of their own: Confined and Clocked of
-- World, Calm of RedisClient.Panics (errors, but no panics) and Peaceful of RedisClient.Numeric
-- (nobody stores a load that is NaN). Tests modules hold the theorems at concrete inputs.
--
-- Not modelled: logging and tracing, the sockets and servers, the matching of paths and the
-- extraction of parameters by the crate axum, the inside of the other crates; the passing of
-- time within a run, of which the times to live are kept and `World.elapse` and the step `lapse` of
-- Contention say what the server drops; the dashboard and the manifests.
pub mod Prelude
pub mod Text
pub mod Crypto
pub mod Float
pub mod Types
pub mod Hasher
pub mod Exec
pub mod F32
pub mod Serde
pub mod RedisClient
pub mod World
pub mod Json
pub mod Provider
pub mod Config
pub mod ControlPlane
pub mod Metrics
pub mod Http
pub mod Hashes
pub mod PodRegistry
pub mod Interceptor
pub mod Router
pub mod Relay
pub mod Startup
