-- ===== src/Metrics/Registration/Created.antt =====
-- sidecar/src/metrics.rs: how the creation and the registration of the metrics end.
use mathlib.Core.Option
use ghostcacher.Prelude.{
  ◌≡◌, refl, ap, ap₂, ◌∙◌, Bool, true, ◌&&◌, some, List, [], ◌∷◌, map, All, arith,
}
use ghostcacher.Text.{Text, text_eq}
use ghostcacher.Metrics.Registration.{
  Opts, Prometheus, metric_opts, is_valid, is_new, create_all, register_all, registered_new,
}

-- Each of the names is new where the ones before it and the known ones are.
abbrev pub all_new : List Text → List Text → Bool
all_new [] known = true
all_new (k ∷ ks) known = is_new k known && all_new ks (k ∷ known)

abbrev pub names_after : List Text → List Text → List Text
names_after [] known = known
names_after (k ∷ ks) known = names_after ks (k ∷ known)

and_left : {a b : Bool} → (a && b) ≡ true → (a ≡ true) × (b ≡ true)
and_left {a} {b} e = ground (arith, e)

module _ (prom : Prometheus) where
  open prom use {Registry, Collector, names, name_of, with_opts, register}

  create_all_ok :
      (os : List Opts)
      → All (λ o. is_valid o ≡ true) os
      → (cs : List Collector) × (create_all prom os ≡ some cs)
        × (map name_of cs ≡ map (λ (o : Opts). o.name) os)
  unfolding create_all Option.bind
  create_all_ok [] valid = ([], refl, refl)
  create_all_ok (o ∷ os) (here, rest) =
      let (c, made, named) = prom.with_opts_ok o here in
      let (cs, all_made, all_named) = create_all_ok os rest in
      (c ∷ cs, rw made (rw all_made refl), ap₂ (λ k ks. k ∷ ks) named all_named)

  register_all_ok :
      (cs : List Collector) (r : Registry)
      → all_new (map name_of cs) (names r) ≡ true
      → (t : Registry) × (register_all prom cs r ≡ some t)
        × (names t ≡ names_after (map name_of cs) (names r))
  unfolding register_all Option.bind
  register_all_ok [] r fresh = (r, refl, refl)
  register_all_ok (c ∷ cs) r fresh =
      let (here, rest) = and_left fresh in
      let (u, done, known) = prom.register_ok c r here in
      let (t, all_done, all_known) =
        register_all_ok cs u (ap (all_new (map name_of cs)) known ∙ rest) in
      (t, rw done all_done, all_known ∙ ap (names_after (map name_of cs)) known)

  -- The start of the metrics never fails: all names and helps are as prometheus wants them, no name
  -- is registered twice and the buckets ascend, so each creation and each registration succeeds.
  pub registered_new_ok :
      (r : Registry) × (registered_new prom ≡ some r)
      × (names r ≡ names_after (map (λ (o : Opts). o.name) metric_opts) [])
  unfolding registered_new Option.bind text_eq
  registered_new_ok =
      let (cs, made, named) =
        create_all_ok metric_opts
          (refl, (refl, (refl, (refl, (refl, (refl, (refl, (refl, tt)))))))) in
      let known = prom.names-new_registry in
      let (r, done, after) = register_all_ok cs prom.new_registry (ap₂ all_new named known) in
      (r, rw made done, after ∙ ap₂ names_after named known)
