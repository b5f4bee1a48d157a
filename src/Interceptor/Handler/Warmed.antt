-- ===== src/Interceptor/Handler/Warmed.antt =====
-- sidecar/src/interceptor.rs: a request after the task of an earlier one for the same prefix.
use mathlib.Core.Option.{some-injective}
use ghostcacher.Prelude.{◌≡◌, sym, ap, ap₂, subst, ◌∙◌, Option, some, List, [], ◌∷◌, ◌++◌}
use ghostcacher.Text.{Text, Bytes}
use ghostcacher.Types.{CacheEntry, CacheLookupResult, hit, miss, PromptBlock}
use ghostcacher.Exec.{Result, ok, err, panic, attempted, bind-cases, pure-cases}
use ghostcacher.Config.{SidecarConfig}
use ghostcacher.Hasher.{HashResult, hash_prompt_blocks}
use ghostcacher.Hasher.Reference.{cacheable}
use ghostcacher.Hasher.Volatile.{hash_prompt_blocks_volatile}
use ghostcacher.RedisClient.{lookup, write, release_ghost_lock, touch}
use ghostcacher.Interceptor.Policy.{pod_url}
use ghostcacher.Interceptor.Forward.{Response, forward_raw}
use ghostcacher.Interceptor.Handler.{
  Deps, Sidecar, InterceptorState, WarmTask, entry_of, on_hit, resolve_found, resolve, tasks_for,
  target_of, proceed,
}
use ghostcacher.Interceptor.Handler.Warming.{lookup-run_task}
use ghostcacher.Metrics.{record_hit}
use ghostcacher.Interceptor.Handler.Routing.{Settled, resolve_ok}
use ghostcacher.Interceptor.Handler.Pipeline.{proceed-Proceeded}

-- The first of some tasks, or another.
abbrev head_or : WarmTask → List WarmTask → WarmTask
head_or task [] = task
head_or task (t ∷ ts) = t

module _ (deps : Deps) where
  open deps use {world, serde, fl, sha, http}

  attempted-some :
      {A : Type 0} (r : Result A × world.Store) (sc : Sidecar deps) {a : A} {u : world.Store}
      {o : Option A} {sd : Sidecar deps}
      → r ≡ (ok a, u)
      → attempted (r.0, record sc { store = r.1 }) ≡ (ok o, sd)
      → o ≡ some a
  attempted-some (ok b, v) sc e h =
      pure-cases h λ returned at. returned ∙ pure-cases (sym e) (λ same _. ap some same)
  attempted-some (err x, v) sc e h = cc
  attempted-some (panic, v) sc e h = cc

  resolve_found-hit :
      (cfg : SidecarConfig) (hash_result : HashResult) (sc : Sidecar deps) (entry : CacheEntry)
      {o : Option (Option CacheEntry)} {r : CacheLookupResult} {sd : Sidecar deps}
      → o ≡ some (some entry)
      → resolve_found deps cfg hash_result o sc ≡ (ok r, sd)
      → r ≡ hit entry.pod_ip entry.pod_id entry.block_count
  unfolding resolve_found on_hit
  resolve_found-hit cfg hr sc entry e h =
      bind-cases _ _ _ (ap (λ o. resolve_found deps cfg hr o sc) (sym e) ∙ h)
        λ u s1 e1 h1. bind-cases _ _ _ h1 λ v s2 e2 h2. pure-cases h2 λ returned at. returned

  -- An entry that the lookup finds makes the request a hit at the entry's pod.
  resolve-hit :
      (cfg : SidecarConfig) (hash_result : HashResult) (sc : Sidecar deps) (entry : CacheEntry)
      {u : world.Store} {r : CacheLookupResult} {sd : Sidecar deps}
      → lookup world serde hash_result.prefix sc.store ≡ (ok (some entry), u)
      → resolve deps cfg hash_result sc ≡ (ok r, sd)
      → r ≡ hit entry.pod_ip entry.pod_id entry.block_count
  unfolding resolve
  resolve-hit cfg hr sc entry l h = bind-cases _ _ _ h λ o s1 e1 h1.
      resolve_found-hit cfg hr s1 entry
        (attempted-some (lookup world serde hr.prefix sc.store) sc l e1) h1

  -- One request was a miss, and its task has run: its write and its release succeeded. A later
  -- request whose stable blocks are the same, for which the lookup succeeds, and which is answered,
  -- is then sent to the pod of the miss, is counted as a hit with the tokens of the prefix, and
  -- leaves no task behind: the prefix is warmed once.
  pub proceed-run_task :
      (state : InterceptorState) (headers : http.HeaderMap) (body : Bytes)
      (xs ys : List PromptBlock) (sc : Sidecar deps) (task : WarmTask) (pod_ip pod_id : Text)
      (s : world.Store) {hash_result : HashResult} {t u : world.Store} {found : Option CacheEntry}
      {v : world.Store} {resp : Response http} {sd : Sidecar deps}
      → hash_prompt_blocks sha fl xs ≡ some hash_result
      → tasks_for hash_result xs (miss pod_ip pod_id) ≡ task ∷ []
      → write world serde (entry_of (world.unix_now (world.sleep 200 s)) task) (world.sleep 200 s)
        ≡ (ok tt, t)
      → release_ghost_lock world serde task.prefix t ≡ (ok tt, u)
      → cacheable xs ≡ cacheable ys
      → sc.store ≡ u
      → lookup world serde task.prefix u ≡ (ok found, v)
      → proceed deps state headers body ys sc ≡ (ok resp, sd)
      → (adapted : Bytes) × (forward_raw http state.cfg headers adapted
            (some (pod_url pod_ip state.cfg))
          ≡ some resp)
        × (sd.metrics ≡ record_hit fl hash_result.prefix_token_estimate sc.metrics)
        × (sd.spawned ≡ sc.spawned)
  unfolding tasks_for target_of touch entry_of
  proceed-run_task state headers body xs ys sc task ip id s {hash_result} {u = u} {v = v} {sd = sd}
        h1 ht w r same at l p =
      let q = proceed-Proceeded deps state headers body ys sc p in
      let hr_same : q.hash_result ≡ hash_result =
        some-injective _ _
          (sym q.hashed ∙ sym (hash_prompt_blocks_volatile sha fl xs ys same) ∙ h1) in
      let from_ht = ap (head_or task) ht in
      let (now, is_found) = lookup-run_task deps task s w r l in
      let prefix_same : q.hash_result.prefix ≡ task.prefix =
        ap (λ (x : HashResult). x.prefix) hr_same ∙ ap (λ (x : WarmTask). x.prefix) from_ht in
      let looked_up : lookup world serde q.hash_result.prefix sc.store
          ≡ (ok (some (touch now (entry_of (world.unix_now (world.sleep 200 s)) task))), v) =
        ap₂ (lookup world serde) prefix_same at ∙ l ∙ ap (λ o. (ok o, v)) is_found in
      let is_hit = resolve-hit state.cfg q.hash_result sc _ looked_up q.resolved in
      let (settled, kept) = resolve_ok deps state.cfg q.hash_result sc q.resolved in
      (
        q.adapted,
        ap (λ x. forward_raw http state.cfg headers q.adapted (some (pod_url x state.cfg)))
              (sym (ap target_of is_hit ∙ sym (ap (λ (x : WarmTask). x.pod_ip) from_ht)))
            ∙ q.sent,
        ap (λ (x : Sidecar deps). x.metrics) q.last
            ∙ subst
                (Settled deps state.cfg q.hash_result.prefix_token_estimate sc.metrics
                  q.behind.metrics)
                is_hit settled
            ∙ ap (λ (x : HashResult). record_hit fl x.prefix_token_estimate sc.metrics) hr_same,
        ap (λ (x : Sidecar deps). x.spawned) q.last
            ∙ ap (λ o. tasks_for q.hash_result ys o ++ q.behind.spawned) is_hit
            ∙ kept,
      )
