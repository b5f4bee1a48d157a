-- ===== src/RedisClient.antt =====
-- sidecar/src/redis_client.rs: the affinity map, the Ghost-Lock and the pod loads in Redis.
pub mod Connect
pub mod Inversion
pub mod Tests
pub mod Lookup
pub mod Lock
pub mod Waiting
pub mod Loads
pub mod Panics
pub mod Kept
pub mod Numeric
pub mod Plane
use mathlib.Core.Option.{get_or}
use ghostcacher.Prelude.{
  ℕ, zero, suc, ◌+◌, ◌-◌, ◌*◌, ◌%◌, ◌^◌, min, Bool, true, false, not, ◌&&◌, ◌||◌, Option, none,
  some, List, [], ◌∷◌, ◌++◌, length, leb, ltb, if◌then◌else◌,
}
use ghostcacher.Prelude.Int.{ℤ, pos, as_i64}
use ghostcacher.Prelude.Sort.{sort}
use ghostcacher.Text.{Text, lit, strip_prefix}
use ghostcacher.F32.{F32, is_nan, f32_le, half}
use ghostcacher.Types.{TtlPolicy, infinite, fixed, sliding, CacheEntry, redis_ttl_secs}
use ghostcacher.Exec.{
  Exec, ok, err, panic, serde_error, redis_error, ◌>>=◌, ◌>>◌, pure, lift, attempt, or_panic,
}
use ghostcacher.Serde.{Serde}
use ghostcacher.World.{World, is_some}

abbrev pub ghost_lock_ttl_secs : ℕ
ghost_lock_ttl_secs = 30

abbrev pub ghost_lock_retry_max : ℕ
ghost_lock_retry_max = 8

abbrev pub ghost_lock_backoff_base_ms : ℕ
ghost_lock_backoff_base_ms = 50

unfoldable pub cache_key : Text → Text
cache_key prefix_hash = lit "cache_map:" ++ prefix_hash

unfoldable pub lock_key : Text → Text
lock_key prefix_hash = lit "ghost_lock:" ++ prefix_hash

-- The entry as a hit leaves it; `hit_count` is a `u64`.
unfoldable pub touch : ℕ → CacheEntry → CacheEntry
touch now entry = record entry {
  hit_count = (entry.hit_count + 1) % 2 ^ 64;
  last_hit_at = as_i64 now;
}

-- `GHOST_LOCK_BACKOFF_BASE_MS * (1 << attempt.min(6))`
unfoldable pub backoff_ms : ℕ → ℕ
backoff_ms attempt_no = ghost_lock_backoff_base_ms * 2 ^ min attempt_no 6

-- `sort_by` with `partial_cmp(..).unwrap()`: a NaN that is compared panics, and a sort compares
-- each element when there are two or more.
unfoldable pub any_nan : List (Text × F32) → Bool
any_nan [] = false
any_nan ((pod, load) ∷ loads) = is_nan load || any_nan loads

unfoldable pub sort_loads : List (Text × F32) → Option (List (Text × F32))
unfolding any_nan
sort_loads loads =
    if ltb 1 (length loads) && any_nan loads
    then none
    else some (sort (λ a b. f32_le a.1 b.1) loads)

unfoldable pub pod_id_of : Text → Text
pod_id_of key = elim (strip_prefix (lit "pod_load:") key) [ none ↦ key | some pod_id ↦ pod_id ]

module _ (w : World) (serde : Serde) where
  -- The sliding time to live is set anew; others are not touched.
  unfoldable pub refresh : Text → TtlPolicy → Exec w.Store (Unit {0})
  refresh key (sliding window_secs) = w.expire key (as_i64 window_secs)
  refresh key _ = pure tt

  unfoldable pub lookup_found : Text → Text → Exec w.Store (Option CacheEntry)
  unfolding refresh
  lookup_found key json = do
    entry ← lift serde_error (serde.from_str json)
    refresh key entry.ttl_policy
    now ← (λ s. (ok (w.unix_now s), s))
    updated ← lift serde_error (serde.to_string (touch now entry))
    w.set key updated
    pure (some (touch now entry))

  -- The match on what `GET` gave.
  unfoldable pub lookup_raw : Text → Option Text → Exec w.Store (Option CacheEntry)
  unfolding lookup_found
  lookup_raw key none = pure none
  lookup_raw key (some json) = lookup_found key json

  unfoldable pub lookup : Text → Exec w.Store (Option CacheEntry)
  unfolding lookup_raw
  lookup prefix_hash = do
    w.conn
    raw ← w.get (cache_key prefix_hash)
    lookup_raw (cache_key prefix_hash) raw

  -- The match on the time to live.
  unfoldable pub write_json : Text → Text → Option ℕ → Exec w.Store (Unit {0})
  write_json key json none = w.set key json
  write_json key json (some secs) = w.set_ex key json secs

  unfoldable pub write : CacheEntry → Exec w.Store (Unit {0})
  unfolding write_json
  write entry = do
    w.conn
    json ← lift serde_error (serde.to_string entry)
    write_json (cache_key entry.prefix_hash) json (redis_ttl_secs entry.ttl_policy)

  unfoldable pub try_acquire_ghost_lock : Text → Exec w.Store Bool
  try_acquire_ghost_lock prefix_hash = do
    w.conn
    result ← w.set_nx_ex (lock_key prefix_hash) (lit "1") ghost_lock_ttl_secs
    pure (is_some result)

  unfoldable pub release_ghost_lock : Text → Exec w.Store (Unit {0})
  release_ghost_lock prefix_hash = do w.conn; w.del (lock_key prefix_hash)

  -- The end of one round of the loop: `some r` is a return of r, `none` goes on.
  unfoldable pub await_unlocked : Text → Bool → Exec w.Store (Option (Option CacheEntry))
  await_unlocked prefix_hash true = pure none
  await_unlocked prefix_hash false = do found ← lookup prefix_hash; pure (some found)

  unfoldable pub await_round : Text → ℕ → Exec w.Store (Option (Option CacheEntry))
  unfolding await_unlocked
  await_round prefix_hash attempt_no = do
    (λ s. (ok tt, w.sleep (backoff_ms attempt_no) s))
    w.conn
    locked ← w.exists (lock_key prefix_hash)
    await_unlocked prefix_hash locked

  abbrev pub or_go_on :
      Exec w.Store (Option CacheEntry)
      → Option (Option CacheEntry)
      → Exec w.Store (Option CacheEntry)
  or_go_on rest none = rest
  or_go_on rest (some found) = pure found

  -- The rounds that are left of `GHOST_LOCK_RETRY_MAX`.
  unfoldable pub await_loop : ℕ → Text → Exec w.Store (Option CacheEntry)
  await_loop zero prefix_hash = pure none
  await_loop (suc left) prefix_hash = do
    returned ← await_round prefix_hash (ghost_lock_retry_max - suc left)
    or_go_on (await_loop left prefix_hash) returned

  unfoldable pub await_ghost_lock_release : Text → Exec w.Store (Option CacheEntry)
  unfolding await_loop await_round
  await_ghost_lock_release prefix_hash = await_loop ghost_lock_retry_max prefix_hash

  unfoldable pub get_pod_load : Text → Exec w.Store F32
  get_pod_load pod_id = do
    w.conn
    val ← w.get (lit "pod_load:" ++ pod_id)
    elim val [ none ↦ pure half | some v ↦ lift redis_error (serde.parse_f32 v) ]

  -- A reply of `GET` as an `f32`: no number is an error.
  unfoldable pub parse_load : Option Text → Exec w.Store F32
  parse_load none = lift redis_error none
  parse_load (some val) = lift redis_error (serde.parse_f32 val)

  unfoldable pub read_load : Text → Exec w.Store F32
  unfolding parse_load
  read_load key = do val ← w.get key; parse_load val

  -- `conn.get(key).await.unwrap_or(0.5)` at the type `f32`.
  unfoldable pub load_or_half : Text → Exec w.Store F32
  unfolding read_load
  load_or_half key = do got ← attempt (read_load key); pure (get_or got half)

  unfoldable pub loads_of : List Text → Exec w.Store (List (Text × F32))
  loads_of [] = pure []
  loads_of (key ∷ rest) = do
    load ← load_or_half key
    loads ← loads_of rest
    pure ((pod_id_of key, load) ∷ loads)

  unfoldable pub list_pod_loads : Exec w.Store (List (Text × F32))
  unfolding loads_of sort_loads
  list_pod_loads = do
    w.conn
    found ← w.keys (lit "pod_load:*")
    loads ← loads_of found
    or_panic (sort_loads loads)

  unfoldable pub incr_metric : Text → Exec w.Store (Unit {0})
  incr_metric key = do w.conn; w.incr (lit "gc_metric:" ++ key) 1
