-- ===== src/PodRegistry/Roster.antt =====
-- What the registry promises: the entry of each pod, which heartbeats put, removals take away and
-- health checks filter. The operations on Redis are operations on this.
use ghostcacher.Prelude.{
  ◌≡◌, refl, sym, ap, ◌∙◌, fun_ext, false, Option, none, List, [], ◌∷◌, inl, inr, Bool-cases,
  if◌then◌else◌,
}
use ghostcacher.Prelude.Int.{ℤ, pos}
use ghostcacher.Text.{Text, text_eq}
use ghostcacher.Text.Laws.{text_eq_iff}
use ghostcacher.Exec.{Exec, ok, ◌>>◌, pure, bind-cases, lift-cases, pure-cases}
use ghostcacher.World.{World}
use ghostcacher.Hashes.{Hashes}
use ghostcacher.PodRegistry.{PodInfo, PodSerde, registry, upsert_pod, remove_pod, evict_dead_pods}
use ghostcacher.PodRegistry.Keys.{upsert_pod_ok, remove_pod_ok, remove_pod_other}
use ghostcacher.PodRegistry.Checks.{survivor, evict_dead_pods-survivor}

abbrev pub Roster : Type 0
Roster = Text → Option Text

pub data Event : Type 0 where
  heartbeat : PodInfo → Event
  removal : Text → Event
  check : Event

-- A roster changed at one id.
abbrev pub entered : Text → Option Text → Roster → Roster
entered id entry roster pod = if text_eq id pod then entry else roster pod

module _ (w : World) (hashes : Hashes w) (serde : PodSerde) where
  open w use {Store}
  open hashes use {field}

  -- What an event at a time does.
  abbrev pub happened : ℤ → Event → Roster → Roster
  happened now (heartbeat info) roster = entered info.pod_id (serde.to_string info) roster
  happened now (removal id) roster = entered id none roster
  happened now check roster = λ pod. survivor w hashes serde now (roster pod)

  abbrev pub happened_all : List ℤ → List Event → Roster → Roster
  happened_all (now ∷ nows) (e ∷ es) roster = happened_all nows es (happened now e roster)
  happened_all _ _ roster = roster

  -- An event as the code carries it out.
  abbrev pub carry_out : Event → Exec Store (Unit {0})
  carry_out (heartbeat info) = upsert_pod w hashes serde info
  carry_out (removal id) = remove_pod w hashes serde id
  carry_out check = evict_dead_pods w hashes serde

  abbrev pub carry_out_all : List Event → Exec Store (Unit {0})
  carry_out_all [] = pure tt
  carry_out_all (e ∷ es) = do carry_out e; carry_out_all es

  entered_ok :
      (id pod : Text) (entry : Option Text) (before after : Roster)
      → after id ≡ entry
      → (text_eq id pod ≡ false → after pod ≡ before pod)
      → after pod ≡ entered id entry before pod
  entered_ok id pod entry before after here other = elim (Bool-cases (text_eq id pod)) [
    | inl same ↦ ap after (sym ((text_eq_iff id pod).0 same)) ∙ here ∙ sym (rw same refl)
    | inr ne ↦ other ne ∙ sym (rw ne refl)
  ]

  upsert_pod_other :
      (info : PodInfo) (other : Text) (s : Store) {t : Store}
      → upsert_pod w hashes serde info s ≡ (ok tt, t)
      → text_eq info.pod_id other ≡ false
      → field t registry other ≡ field s registry other
  unfolding upsert_pod
  upsert_pod_other info other s h ne = bind-cases _ _ _ h λ u s1 e1 h1.
      bind-cases _ _ _ h1 λ json s2 e2 h2. bind-cases _ _ _ h2 λ v s3 e3 h3.
        bind-cases _ _ _ h3 λ x s4 e4 h4. bind-cases _ _ _ h4 λ now s5 e5 h5.
          lift-cases _ _ _ e2 λ encoded at2. pure-cases e5 λ clock at5. cc (
            hashes.set_ex_keeps _ _ _ h5,
            hashes.set_ex_keeps _ _ _ e4,
            hashes.hset_other registry info.pod_id json other e3 ne,
            hashes.conn_keeps e1,
            at2,
            at5,
          )

  carry_out_ok :
      (e : Event) (s : Store) {t : Store}
      → carry_out e s ≡ (ok tt, t)
      → (now : ℤ) × (field t registry ≡ happened now e (field s registry))
  carry_out_ok (heartbeat info) s h =
      let (json, clock, encoded, entry, keys) = upsert_pod_ok w hashes serde info s h in
      (
        pos clock,
        fun_ext λ pod.
            entered_ok info.pod_id pod (serde.to_string info) (field s registry) (field _ registry)
              (entry ∙ sym encoded) (upsert_pod_other info pod s h),
      )
  carry_out_ok (removal id) s h = (
    pos 0,
    fun_ext λ pod.
        entered_ok id pod none (field s registry) (field _ registry)
          (remove_pod_ok w hashes serde id s h).0 (remove_pod_other w hashes serde id pod s h),
  )
  carry_out_ok check s h =
      let (now, clock, filtered) = evict_dead_pods-survivor w hashes serde s h in
      (now, fun_ext filtered)

  -- Any sequence of heartbeats, removals and health checks that end with no error leaves the
  -- registry as the same events, each check at one time for all pods, make of the roster that it
  -- was: a heartbeat puts the pod's entry, a removal takes it away, a check keeps the entries that
  -- are not too old, and nothing else changes.
  pub carry_out_all-happened_all :
      (es : List Event) (s : Store) {t : Store}
      → carry_out_all es s ≡ (ok tt, t)
      → (nows : List ℤ) × (field t registry ≡ happened_all nows es (field s registry))
  carry_out_all-happened_all [] s h =
      pure-cases h λ returned at. ([], ap (λ x. field x registry) at)
  carry_out_all-happened_all (e ∷ es) s h = bind-cases _ _ _ h λ u s1 e1 h1.
      let (now, first) = carry_out_ok e s e1 in
      let (nows, rest) = carry_out_all-happened_all es s1 h1 in
      (now ∷ nows, rest ∙ ap (happened_all nows es) first)
