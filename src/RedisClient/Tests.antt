-- ===== src/RedisClient/Tests.antt =====
-- Instances of the theorems on the control plane, at a server in memory.
use ghostcacher.Prelude.{ap, true, ℕ, ◌+◌, ◌≤◌, ◌≡◌, refl, none, some, List, [], ◌∷◌}
use ghostcacher.Prelude.Int.{pos}
use ghostcacher.Text.{Text, lit, text_eq}
use ghostcacher.F32.{F32, half}
use ghostcacher.Types.{CacheEntry, sliding, redis_ttl_secs}
use ghostcacher.Exec.{ok}
use ghostcacher.World.{is_some, put}
use ghostcacher.World.Memory.{Memory, memory, empty, memory_clocked}
use ghostcacher.Serde.Sample.{plain}
use ghostcacher.RedisClient.{
  cache_key, lock_key, touch, write, lookup, try_acquire_ghost_lock, release_ghost_lock,
  await_ghost_lock_release,
}
use ghostcacher.RedisClient.Lookup.{TouchedAt, lookup-drops-ttl, lookup-write}
use ghostcacher.RedisClient.Waiting.{await_ghost_lock_release-slept}
use ghostcacher.RedisClient.Lock.{await_ghost_lock_release_ok, await-held, Freed}

abbrev entry : CacheEntry
entry = record {
  prefix_hash = lit "ab";
  pod_ip = lit "10.0.0.7";
  pod_id = lit "gpu-7";
  block_count = 2;
  token_count = 900;
  hit_count = 0;
  created_at = pos 1000;
  last_hit_at = pos 1000;
  ttl_policy = sliding 3600;
}

abbrev start : Memory
start = empty 1000

abbrev written : Memory
written = (write memory plain entry start).1

abbrev looked_up : Memory
looked_up = (lookup memory plain (lit "ab") written).1

lookup-drops-ttl_example : looked_up.db.ttl (cache_key (lit "ab")) ≡ none
unfolding write lookup touch ghostcacher.Exec.◌>>=◌ redis_ttl_secs put text_eq cache_key
lookup-drops-ttl_example =
    lookup-drops-ttl memory plain (lit "ab") written {e = touch 1000 entry} refl

lookup-write_example :
    (now : ℕ) × (stored : Text) × (some (touch 1000 entry) ≡ some (touch now entry))
    × (plain.to_string (touch now entry) ≡ some stored)
    × (looked_up.db.value (cache_key (lit "ab")) ≡ some stored)
    × TouchedAt memory plain (cache_key (lit "ab")) entry.ttl_policy written now
unfolding write lookup touch ghostcacher.Exec.◌>>=◌ redis_ttl_secs put text_eq cache_key
lookup-write_example = lookup-write memory plain entry start {t = written} refl refl

abbrev locked : Memory
locked = (try_acquire_ghost_lock memory plain (lit "ab") start).1

abbrev unlocked : Memory
unlocked = (release_ghost_lock memory plain (lit "ab") locked).1

-- The owner of the lock writes the entry and releases the lock while the other one waits.
abbrev waiting : Memory
waiting = record locked {
  others =
      (λ db. (release_ghost_lock memory plain (lit "ab") (write memory plain entry locked).1).1.db)
      ∷ [];
}

abbrev awaited : Memory
awaited = (await_ghost_lock_release memory plain (lit "ab") waiting).1

await_ghost_lock_release_ok_example :
    Freed memory plain (lit "ab") (some (touch 1000 entry)) awaited
unfolding write try_acquire_ghost_lock release_ghost_lock await_ghost_lock_release lookup touch
    ghostcacher.Exec.◌>>=◌ ghostcacher.World.remove text_eq lock_key cache_key redis_ttl_secs put
await_ghost_lock_release_ok_example =
    await_ghost_lock_release_ok memory plain (lit "ab") waiting refl

abbrev loads : List (Text × F32)
loads = (lit "a", half) ∷ (lit "b", 0) ∷ []

abbrev registered : Memory
registered = record start {
  db = put (lit "pod_load:a") (9 ∷ []) none (put (lit "pod_load:b") (5 ∷ []) none start.db);
  known = lit "pod_load:a" ∷ lit "pod_load:b" ∷ lit "cache_map:ab" ∷ [];
}

-- A server in memory with the lock of a prefix, that nobody else changes.
abbrev Undisturbed : Memory → Type 0
Undisturbed m = (is_some (m.db.value (lock_key (lit "ab"))) ≡ true) × (m.others ≡ [])

sleep-Undisturbed : (ms : ℕ) (m : Memory) → Undisturbed m → Undisturbed (memory.sleep ms m)
sleep-Undisturbed ms m (l, o) = rw o (l, refl)

await-held_example :
    (m : Memory) × (await_ghost_lock_release memory plain (lit "ab") locked ≡ (ok none, m))
    × Undisturbed m
    × (m.slept ≡ locked.slept + 9550)
unfolding try_acquire_ghost_lock ghostcacher.Exec.◌>>=◌ ghostcacher.World.claim text_eq lock_key
await-held_example =
    await-held memory plain (lit "ab") memory_clocked
      (λ ms u l.
        let (held, alone) = sleep-Undisturbed ms u l in
        (
          memory.sleep ms u,
          memory.sleep ms u,
          refl,
          ap (λ b. (ok b, memory.sleep ms u)) held,
          (held, alone),
        ))
      locked (refl, refl)

await_ghost_lock_release-slept_example :
    (await_ghost_lock_release memory plain (lit "ab") waiting).1.slept ≤ 0 + 9550
unfolding try_acquire_ghost_lock ghostcacher.Exec.◌>>=◌
await_ghost_lock_release-slept_example =
    await_ghost_lock_release-slept memory plain memory_clocked (lit "ab") waiting
