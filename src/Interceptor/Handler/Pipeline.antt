-- ===== src/Interceptor/Handler/Pipeline.antt =====
-- The handler as a whole.
use ghostcacher.Prelude.{◌≡◌, refl, sym, ap, subst, ◌∙◌, some, none, List, ◌++◌, arith}
use ghostcacher.Text.{Text, Bytes}
use ghostcacher.Types.{CacheLookupResult, hit, partial_hit, miss, PromptBlock}
use ghostcacher.Exec.{ok, or_panic, bind-cases, pure-cases, or_panic-cases}
use ghostcacher.Hasher.{HashResult, hash_prompt_blocks}
use ghostcacher.Provider.{inject_cache_headers}
use ghostcacher.Interceptor.Policy.{pod_url}
use ghostcacher.Interceptor.Extract.{extract_prompt_blocks}
use ghostcacher.Interceptor.Forward.{Response, forward_raw}
use ghostcacher.Interceptor.Handler.{
  Deps, Sidecar, InterceptorState, resolve, tasks_for, target_of, proceed, intercept,
  intercept_handler,
}
use ghostcacher.Interceptor.Handler.Routing.{Settled, resolve_ok}

-- The address in what a lookup came to.
abbrev pub address : CacheLookupResult → Text
address (hit pod_ip pod_id n) = pod_ip
address (partial_hit pod_ip pod_id n) = pod_ip
address (miss pod_ip pod_id) = pod_ip

target_of-address : (looked : CacheLookupResult) → target_of looked ≡ address looked
unfolding target_of
target_of-address (hit ip id n) = refl
target_of-address (partial_hit ip id n) = refl
target_of-address (miss ip id) = refl

module _ (deps : Deps) where
  open deps use {world, serde, sj, sha, fl, http}

  -- A body from which no blocks can be extracted goes to the configured upstream server as it came:
  -- the store, the metrics and the tasks stay as they were, and only the client can make the code panic.
  pub intercept_handler_raw :
      (state : InterceptorState) (headers : http.HeaderMap) (body : http.Body) (sc : Sidecar deps)
      {bytes : Bytes}
      → http.to_bytes body 52428800 ≡ some bytes
      → extract_prompt_blocks sj state.provider bytes ≡ none
      → intercept_handler deps state headers body sc
        ≡ or_panic (forward_raw http state.cfg headers bytes none) sc
  unfolding intercept_handler intercept
  intercept_handler_raw state headers body sc e f = ground (arith, e, f)

  -- What was done for a request that was answered: its values, and the state behind the lookup.
  pub record Proceeded (state : InterceptorState) (headers : http.HeaderMap) (body : Bytes)
      (blocks : List PromptBlock) (sc : Sidecar deps) (resp : Response http) (sd : Sidecar deps)
      : Type 0 where
    pub hash_result : HashResult
    pub looked : CacheLookupResult
    pub adapted : Bytes
    pub behind : Sidecar deps
    pub hashed : hash_prompt_blocks sha fl blocks ≡ some hash_result
    pub resolved : resolve deps state.cfg hash_result sc ≡ (ok looked, behind)
    pub injected : inject_cache_headers sj state.provider body blocks ≡ some adapted
    pub sent :
        forward_raw http state.cfg headers adapted (some (pod_url (target_of looked) state.cfg))
        ≡ some resp
    pub last :
        sd ≡ record behind { spawned = tasks_for hash_result blocks looked ++ behind.spawned }

  pub proceed-Proceeded :
      (state : InterceptorState) (headers : http.HeaderMap) (body : Bytes)
      (blocks : List PromptBlock) (sc : Sidecar deps) {resp : Response http} {sd : Sidecar deps}
      → proceed deps state headers body blocks sc ≡ (ok resp, sd)
      → Proceeded state headers body blocks sc resp sd
  unfolding proceed
  proceed-Proceeded state headers body blocks sc h = bind-cases _ _ _ h λ hr s1 e1 h1.
      bind-cases _ _ _ h1 λ looked s2 e2 h2. bind-cases _ _ _ h2 λ adapted s3 e3 h3.
        bind-cases _ _ _ h3 λ u s4 e4 h4. or_panic-cases _ e1 λ hashed at1.
          or_panic-cases _ e3 λ injected at3. pure-cases e4 λ un at4. or_panic-cases _ h4 λ sent at.
            record {
              hash_result = hr;
              looked = looked;
              adapted = adapted;
              behind = s2;
              hashed = hashed;
              resolved = ap (resolve deps state.cfg hr) (sym at1) ∙ e2;
              injected = injected;
              sent = sent;
              last =
                  at
                  ∙ at4
                  ∙ ap
                      (λ (x : Sidecar deps). record x {
                        spawned = tasks_for hr blocks looked ++ x.spawned;
                      })
                      at3;
            }

  -- When a request with blocks is answered, the prefix was resolved for the hash of its blocks, from
  -- the state in which the request came in; its body was adapted for the provider and sent to the pod
  -- to which that resolution came; that was a hit that is counted as one, or a miss at the default
  -- address; and behind it one task was spawned for a miss, none for a hit.
  pub proceed_ok :
      (state : InterceptorState) (headers : http.HeaderMap) (body : Bytes)
      (blocks : List PromptBlock) (sc : Sidecar deps) {resp : Response http} {sd : Sidecar deps}
      → proceed deps state headers body blocks sc ≡ (ok resp, sd)
      → (hash_result : HashResult) × (looked : CacheLookupResult) × (adapted : Bytes)
        × (behind : Sidecar deps) × (hash_prompt_blocks sha fl blocks ≡ some hash_result)
        × (resolve deps state.cfg hash_result sc ≡ (ok looked, behind))
        × (inject_cache_headers sj state.provider body blocks ≡ some adapted)
        × (forward_raw http state.cfg headers adapted (some (pod_url (address looked) state.cfg))
            ≡ some resp)
        × Settled deps state.cfg hash_result.prefix_token_estimate sc.metrics sd.metrics looked
        × (sd.spawned ≡ tasks_for hash_result blocks looked ++ sc.spawned)
        × (sd.store ≡ behind.store)
  proceed_ok state headers body blocks sc h =
      let p = proceed-Proceeded state headers body blocks sc h in
      let (settled, kept) = resolve_ok deps state.cfg p.hash_result sc p.resolved in
      (
        p.hash_result,
        p.looked,
        p.adapted,
        p.behind,
        p.hashed,
        p.resolved,
        p.injected,
        ap (λ x. forward_raw http state.cfg headers p.adapted (some (pod_url x state.cfg)))
              (sym (target_of-address p.looked))
            ∙ p.sent,
        subst
            (λ n. Settled deps state.cfg p.hash_result.prefix_token_estimate sc.metrics n p.looked)
            (sym (ap (λ (x : Sidecar deps). x.metrics) p.last)) settled,
        ap (λ (x : Sidecar deps). x.spawned) p.last
            ∙ ap (λ l. tasks_for p.hash_result blocks p.looked ++ l) kept,
        ap (λ (x : Sidecar deps). x.store) p.last,
      )
