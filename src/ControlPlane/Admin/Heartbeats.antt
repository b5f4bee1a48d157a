-- ===== src/ControlPlane/Admin/Heartbeats.antt =====
-- The heartbeat of a pod: each way that it can be answered, and the health check after it.
use mathlib.Core.Option.{some-injective}
use ghostcacher.Prelude.{◌≡◌, refl, sym, ap, ◌∙◌, ◌⊎◌, inl, inr, Option, none, some, if◌then◌else◌}
use ghostcacher.Prelude.Int.{ℤ}
use ghostcacher.Text.{Text}
use ghostcacher.Exec.{Error, ok, err, bind-cases, pure-cases, attempt-cases}
use ghostcacher.World.{World}
use ghostcacher.Hashes.{Hashes}
use ghostcacher.Json.{Value}
use ghostcacher.PodRegistry.{PodInfo, PodSerde, registry, is_dead, upsert_pod, evict_dead_pods}
use ghostcacher.PodRegistry.Keys.{upsert_pod_ok}
use ghostcacher.PodRegistry.Checks.{ReadAt, read_dead, survivor, evict_dead_pods-survivor}
use ghostcacher.ControlPlane.Admin.{
  AdminSerde, Answer, bad_request, internal_server_error, registered, register,
  pod_heartbeat_handler,
}

module _ (w : World) (hashes : Hashes w) (serde : PodSerde) (sv : AdminSerde) where
  open w use {Store}
  open hashes use {field}

  -- What the handler answers with, from what was in the body and what became of it.
  abbrev pub Handled : Text → Value → Store → Answer → Store → Type 0
  Handled pod_id body s a t =
      ((sv.pod_from_value body ≡ none) × (a ≡ bad_request) × (t ≡ s))
      ⊎ ((info : PodInfo) × (sv.pod_from_value body ≡ some info)
          × (((a ≡ registered w hashes serde sv pod_id (some tt))
                × (upsert_pod w hashes serde info s ≡ (ok tt, t)))
              ⊎ ((a ≡ internal_server_error)
                  × ((e : Error) × (upsert_pod w hashes serde info s ≡ (err e, t))))))

  register_ok :
      (pod_id : Text) (body : Value) (o : Option PodInfo) (s : Store) {a : Answer} {t : Store}
      → sv.pod_from_value body ≡ o
      → register w hashes serde sv pod_id o s ≡ (ok a, t)
      → Handled pod_id body s a t
  unfolding register
  register_ok pod_id body none s read h = pure-cases h λ returned at. inl (read, returned, at)
  register_ok pod_id body (some info) s read h = bind-cases _ _ _ h λ o s1 e1 h1.
      pure-cases h1 λ returned at.
        attempt-cases (upsert_pod w hashes serde info) s e1
          (λ u known stored. inr (
            info,
            read,
            inl (
              returned ∙ ap (registered w hashes serde sv pod_id) known,
              stored ∙ ap (λ x. (ok tt, x)) (sym at),
            ),
          ))
          (λ e known failed. inr (
            info,
            read,
            inr (
              returned ∙ ap (registered w hashes serde sv pod_id) known,
              (e, failed ∙ ap (λ x. (err e, x)) (sym at)),
            ),
          ))

  -- A heartbeat that is answered is one of three: the body is no pod, the answer is 400 and the
  -- store is untouched; the pod was recorded, and the answer names the id of the path; or Redis or
  -- the encoding failed, and the answer is 500.
  pub pod_heartbeat_handler_ok :
      (pod_id : Text) (body : Value) (s : Store) {a : Answer} {t : Store}
      → pod_heartbeat_handler w hashes serde sv pod_id body s ≡ (ok a, t)
      → Handled pod_id body s a t
  unfolding pod_heartbeat_handler
  pod_heartbeat_handler_ok pod_id body s h =
      register_ok pod_id body (sv.pod_from_value body) s refl h

  survivor-read :
      (now : ℤ) {info : PodInfo} {json : Text}
      → serde.from_str json ≡ some info
      → survivor w hashes serde now (some json) ≡ (if is_dead now info then none else some json)
  survivor-read now {json = json} parsed =
      ap (λ o. if read_dead w hashes serde now o then none else some json) parsed

  upsert-evict_dead_pods :
      (info : PodInfo) (s : Store) {t u : Store}
      → ((json : Text) → serde.to_string info ≡ some json → serde.from_str json ≡ some info)
      → upsert_pod w hashes serde info s ≡ (ok tt, t)
      → evict_dead_pods w hashes serde t ≡ (ok tt, u)
      → (now : ℤ) × ReadAt w hashes serde t now
        × (field u registry info.pod_id ≡ (if is_dead now info then none else serde.to_string info))
  upsert-evict_dead_pods info s back stored check =
      let (json, clock, encoded, entry, keys) = upsert_pod_ok w hashes serde info s stored in
      let (now, clock, filtered) = evict_dead_pods-survivor w hashes serde _ check in
      (
        now,
        clock,
        filtered info.pod_id
            ∙ ap (survivor w hashes serde now) entry
            ∙ survivor-read now (back json encoded)
            ∙ ap (λ o. if is_dead now info then none else o) (sym encoded),
      )

  -- A pod whose heartbeat was answered with success is, after the next health check that ends with
  -- no error, in the registry as its body says, under the id in the body, unless the time of the
  -- last heartbeat that the body itself gives is too old for the check: then it is gone, however
  -- late its request came. The condition is that what is written of the pod is read back as the pod.
  pub heartbeat-evict_dead_pods :
      (pod_id : Text) (body : Value) (info : PodInfo) (s : Store) {t u : Store}
      → sv.pod_from_value body ≡ some info
      → ((json : Text) → serde.to_string info ≡ some json → serde.from_str json ≡ some info)
      → pod_heartbeat_handler w hashes serde sv pod_id body s
        ≡ (ok (registered w hashes serde sv pod_id (some tt)), t)
      → evict_dead_pods w hashes serde t ≡ (ok tt, u)
      → (now : ℤ) × ReadAt w hashes serde t now
        × (field u registry info.pod_id ≡ (if is_dead now info then none else serde.to_string info))
  heartbeat-evict_dead_pods pod_id body info s read back h check =
      elim (pod_heartbeat_handler_ok pod_id body s h) [
        | inl (unread, answer, at) ↦ absurd (cc (read, unread))
        | inr (seen, parsed, inr (refused, rest)) ↦ absurd (cc refused)
        | inr (seen, parsed, inl (answer, stored)) ↦
            let same : seen ≡ info = some-injective _ _ (sym parsed ∙ read) in
            upsert-evict_dead_pods info s back
              (ap (λ i. upsert_pod w hashes serde i s) (sym same) ∙ stored) check
      ]
