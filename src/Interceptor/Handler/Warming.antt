-- ===== src/Interceptor/Handler/Warming.antt =====
-- The task that a miss leaves behind.
use ghostcacher.Prelude.{◌≡◌, refl, ap, ◌∙◌, ℕ, false, Option, some, none, arith}
use ghostcacher.Text.{Text, text_eq}
use ghostcacher.Types.{CacheEntry, redis_ttl_secs}
use ghostcacher.Exec.{ok, ◌>>=◌}
use ghostcacher.World.{Db, remove}
use ghostcacher.RedisClient.{cache_key, lock_key, touch, lookup, write, release_ghost_lock}
use ghostcacher.RedisClient.Inversion.{value-put, ttl-put, value-remove}
use ghostcacher.RedisClient.Lookup.{write_ok, lookup-Looked, Looked-touch}
use ghostcacher.RedisClient.Lock.{release_ok}
use ghostcacher.Interceptor.Handler.{Deps, WarmTask, entry_of, run_task}

-- The keys of the entries and of the locks are apart.
lock_key-cache_key : (a b : Text) → text_eq (lock_key a) (cache_key b) ≡ false
unfolding lock_key cache_key text_eq
lock_key-cache_key a b = refl

value-remove_other :
    (j k : Text) (db : Db) → text_eq k j ≡ false → (remove k db).value j ≡ db.value j
unfolding remove
value-remove_other j k db e = rw (e) refl

ttl-remove_other : (j k : Text) (db : Db) → text_eq k j ≡ false → (remove k db).ttl j ≡ db.ttl j
unfolding remove
ttl-remove_other j k db e = rw (e) refl

module _ (deps : Deps) where
  open deps use {world, serde}
  open world use {Store, view}

  -- The task of a miss stores its entry with the task's time to live, and then frees the lock, if
  -- the server carries both out.
  pub run_task_ok :
      (task : WarmTask) (s : Store) {t u : Store}
      → write world serde (entry_of (world.unix_now (world.sleep 200 s)) task) (world.sleep 200 s)
        ≡ (ok tt, t)
      → release_ghost_lock world serde task.prefix t ≡ (ok tt, u)
      → (run_task deps task s ≡ (ok tt, u))
        × ((json : Text) × (serde.to_string (entry_of (world.unix_now (world.sleep 200 s)) task)
              ≡ some json)
            × ((view u).value (cache_key task.prefix) ≡ some json)
            × ((view u).ttl (cache_key task.prefix) ≡ redis_ttl_secs task.policy))
        × ((view u).value (lock_key task.prefix) ≡ none)
  unfolding run_task ◌>>=◌ entry_of
  run_task_ok task s {t} {u} w r =
      let (json, encoded, after) = write_ok world serde _ (world.sleep 200 s) w in
      let removed = release_ok world serde task.prefix t r in
      let key = cache_key task.prefix in
      let apart = lock_key-cache_key task.prefix task.prefix in
      (
        ground (arith, w, r),
        (
          json,
          encoded,
          ap (λ (db : Db). db.value key) removed
              ∙ value-remove_other key (lock_key task.prefix) (view t) apart
              ∙ ap (λ (db : Db). db.value key) after
              ∙ value-put key json _ _,
          ap (λ (db : Db). db.ttl key) removed
              ∙ ttl-remove_other key (lock_key task.prefix) (view t) apart
              ∙ ap (λ (db : Db). db.ttl key) after
              ∙ ttl-put key json _ _,
        ),
        ap (λ (db : Db). db.value (lock_key task.prefix)) removed
            ∙ value-remove (lock_key task.prefix) (view t),
      )

  -- After a task whose write and release succeed, a lookup that succeeds finds the task's entry, at
  -- the task's pod, with one hit.
  pub lookup-run_task :
      (task : WarmTask) (s : Store) {t u v : Store} {r : Option CacheEntry}
      → write world serde (entry_of (world.unix_now (world.sleep 200 s)) task) (world.sleep 200 s)
        ≡ (ok tt, t)
      → release_ghost_lock world serde task.prefix t ≡ (ok tt, u)
      → lookup world serde task.prefix u ≡ (ok r, v)
      → (now : ℕ) × (r ≡ some (touch now (entry_of (world.unix_now (world.sleep 200 s)) task)))
  lookup-run_task task s {u = u} w r l =
      let (ran, (json, encoded, there, ttl), free) = run_task_ok task s w r in
      let (now, stored, found, written, kept, clock) =
        Looked-touch world serde (lookup-Looked world serde task.prefix u l) there
          (serde.from_str-to_string encoded) in
      (now, found)
