-- ===== src/Startup/Spawning/Started.antt =====
-- What runs when the control plane or the relay has started, and when its start fails.
use ghostcacher.Prelude.{◌≡◌, sym, ap, ◌∙◌, some, ◌∷◌}
use ghostcacher.Exec.{Result, ok, bind-cases, pure-cases, lift-cases}
use ghostcacher.Config.Environment.{load_control_plane, load_relay}
use ghostcacher.ControlPlane.Config.{ControlPlaneConfig}
use ghostcacher.ControlPlane.Background.{eviction_loop, health_check_loop}
use ghostcacher.Relay.{RelayConfig, KvRelayService, new_relay}
use ghostcacher.Startup.{Services}
use ghostcacher.Startup.Spawning.{
  AppState, loop, grpc_server, Process, start_control_plane, start_relay,
}

module _ (services : Services) where
  open services use {world, open_client, ping, crate, Addr, parse}

  -- A control plane that has started has spawned both loops, once each; its registry is on the
  -- configured Redis and is the one that the eviction engine and the handlers share; and it listens
  -- at the configured address.
  pub start_control_plane_ok :
      (p : Process services) {state : AppState} {addr : Addr} {q : Process services}
      → start_control_plane services p ≡ (ok (state, addr), q)
      → (load_control_plane crate ≡ some state.cfg)
        × (parse state.cfg.listen_addr ≡ some addr)
        × (state.pods.client ≡ state.cfg.redis_url)
        × (state.eviction.pods ≡ state.pods)
        × (state.eviction.cfg ≡ state.cfg)
        × (q.spawned ≡ loop health_check_loop ∷ loop eviction_loop ∷ p.spawned)
  unfolding start_control_plane
  start_control_plane_ok p {state} h = bind-cases _ _ _ h λ cfg p1 e1 h1.
      bind-cases _ _ _ h1 λ u p2 e2 h2. bind-cases _ _ _ h2 λ v p3 e3 h3.
        bind-cases _ _ _ h3 λ x p4 e4 h4. bind-cases _ _ _ h4 λ addr p5 e5 h5.
          lift-cases _ _ _ e1 λ loaded at1. lift-cases _ _ _ e5 λ parsed at5.
            pure-cases h5 λ returned at6.
              let cfg_ok : state.cfg ≡ cfg = ap (λ (x : AppState × Addr). x.0.cfg) returned in
              let kept = ap (λ (r : Result (Unit {0}) × Process services). r.1.spawned) (sym e2) in
              let first = ap (λ (r : Result (Unit {0}) × Process services). r.1.spawned) (sym e3) in
              let second =
                ap (λ (r : Result (Unit {0}) × Process services). r.1.spawned) (sym e4) in
              (
                loaded ∙ ap some (sym cfg_ok),
                ap (λ (c : ControlPlaneConfig). parse c.listen_addr) cfg_ok
                    ∙ parsed
                    ∙ ap some (sym (ap (λ (x : AppState × Addr). x.1) returned)),
                ap (λ (x : AppState × Addr). x.0.pods.client) returned
                    ∙ ap (λ (c : ControlPlaneConfig). c.redis_url) (sym cfg_ok),
                ap (λ (x : AppState × Addr). x.0.eviction.pods) returned
                    ∙ sym (ap (λ (x : AppState × Addr). x.0.pods) returned),
                ap (λ (x : AppState × Addr). x.0.eviction.cfg) returned ∙ sym cfg_ok,
                cc (at6, at5, second, first, kept, at1),
              )

  -- A relay that has started has spawned the server of the transfers at the one configured address
  -- and serves its health at the other; nothing asked Redis.
  pub start_relay_ok :
      (p : Process services) {relay_svc : KvRelayService} {addr : Addr} {q : Process services}
      → start_relay services p ≡ (ok (relay_svc, addr), q)
      → (load_relay crate ≡ some relay_svc.cfg)
        × (parse relay_svc.cfg.http_addr ≡ some addr)
        × (q.store ≡ p.store)
        × (grpc : Addr) × (parse relay_svc.cfg.grpc_addr ≡ some grpc)
        × (q.spawned ≡ grpc_server relay_svc grpc ∷ p.spawned)
  unfolding start_relay new_relay
  start_relay_ok p {relay_svc} h = bind-cases _ _ _ h λ cfg p1 e1 h1.
      bind-cases _ _ _ h1 λ svc p2 e2 h2. bind-cases _ _ _ h2 λ grpc p3 e3 h3.
        bind-cases _ _ _ h3 λ u p4 e4 h4. bind-cases _ _ _ h4 λ http p5 e5 h5.
          lift-cases _ _ _ e1 λ loaded at1. lift-cases _ _ _ e3 λ grpc_ok at3.
            lift-cases _ _ _ e5 λ http_ok at5. pure-cases e2 λ made at2.
              pure-cases h5 λ returned at6.
                let same : relay_svc ≡ svc = ap (λ (x : KvRelayService × Addr). x.0) returned in
                let cfg_ok : relay_svc.cfg ≡ cfg =
                  ap (λ (x : KvRelayService). x.cfg) (same ∙ made) in
                let run = ap (λ (r : Result (Unit {0}) × Process services). r.1) (sym e4) in
                (
                  loaded ∙ ap some (sym cfg_ok),
                  ap (λ (c : RelayConfig). parse c.http_addr) cfg_ok
                      ∙ http_ok
                      ∙ ap some (sym (ap (λ (x : KvRelayService × Addr). x.1) returned)),
                  cc (at6, at5, ap (λ (x : Process services). x.store) run, at3, at2, at1),
                  grpc,
                  ap (λ (c : RelayConfig). parse c.grpc_addr) cfg_ok ∙ grpc_ok,
                  cc (at6, at5, ap (λ (x : Process services). x.spawned) run, at3, at2, at1, same),
                )
