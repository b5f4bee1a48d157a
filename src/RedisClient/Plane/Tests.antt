-- ===== src/RedisClient/Plane/Tests.antt =====
-- Instance of the refinement: a sidecar that warms a prefix and one that asks for it.
use ghostcacher.Prelude.{ℕ, ◌≡◌, refl, true, false, some, List, [], ◌∷◌}
use ghostcacher.Prelude.Int.{pos}
use ghostcacher.Text.{Text, lit}
use ghostcacher.Types.{CacheEntry, fixed}
use ghostcacher.World.{elapse}
use ghostcacher.World.Memory.{Memory, memory, empty}
use ghostcacher.Serde.Sample.{plain}
use ghostcacher.RedisClient.{touch}
use ghostcacher.RedisClient.Plane.{
  Call, Reply, to_write, to_look_up, to_acquire, to_release, done, looked_up, took, plane,
  perform_all, promised_all,
}
use ghostcacher.RedisClient.Plane.Refinement.{perform_all-promised_all}
use ghostcacher.RedisClient.Plane.Leases.{Leased, perform_all-lapses}

abbrev entry : CacheEntry
entry = record {
  prefix_hash = lit "ab";
  pod_ip = lit "10.0.0.7";
  pod_id = lit "gpu-7";
  block_count = 2;
  token_count = 900;
  hit_count = 0;
  created_at = pos 1000;
  last_hit_at = pos 1000;
  ttl_policy = fixed 60;
}

abbrev calls : List Call
calls = to_acquire (lit "ab") ∷ to_write entry ∷ to_release (lit "ab") ∷ to_look_up (lit "ab") ∷ []

abbrev replies : List Reply
replies = took true ∷ done ∷ done ∷ looked_up (some (touch 1000 entry)) ∷ []

abbrev final : Memory
final = (perform_all memory plain calls (empty 1000)).1

perform_all-promised_all_example :
    (nows : List ℕ) × ((replies, plane memory plain final.db)
      ≡ promised_all nows calls (plane memory plain (empty 1000).db))
unfolding ghostcacher.Exec.◌>>=◌ ghostcacher.RedisClient.try_acquire_ghost_lock
    ghostcacher.RedisClient.write ghostcacher.Types.redis_ttl_secs
    ghostcacher.RedisClient.release_ghost_lock ghostcacher.RedisClient.lookup
    ghostcacher.World.remove ghostcacher.Text.text_eq ghostcacher.RedisClient.lock_key
    ghostcacher.RedisClient.cache_key ghostcacher.World.put ghostcacher.World.claim
perform_all-promised_all_example =
    perform_all-promised_all memory plain calls (empty 1000) {rs = replies} {t = final} refl

-- The owner of the lock stops before it writes.
abbrev cut_short : List Call
cut_short = to_acquire (lit "ab") ∷ []

abbrev abandoned : Memory
abandoned = (perform_all memory plain cut_short (empty 1000)).1

none_held : Leased (plane memory plain (empty 1000).db)
none_held h e = cc

perform_all-lapses_example :
    Leased (plane memory plain abandoned.db)
    × ((h : Text) → (plane memory plain (elapse 30 abandoned.db)).locked h ≡ false)
unfolding ghostcacher.Exec.◌>>=◌ ghostcacher.RedisClient.try_acquire_ghost_lock
    ghostcacher.World.claim
perform_all-lapses_example =
    perform_all-lapses memory plain cut_short (empty 1000) {rs = took true ∷ []} {t = abandoned}
      none_held refl
