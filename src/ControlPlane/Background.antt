-- ===== src/ControlPlane/Background.antt =====
-- control-plane/src/main.rs: what runs in the service, the two loops that it spawns beside the
-- requests that it serves. Each act is atomic to the model: the code behind the sleep of one round of
-- a loop, or one request; the sleeps are the acts of others between two of them.
pub mod Untouched
use ghostcacher.Prelude.{Option, none, some, List, [], ◌∷◌}
use ghostcacher.Exec.{Exec, ◌>>=◌, ◌>>◌, pure, attempt}
use ghostcacher.Float.{Float}
use ghostcacher.World.{World}
use ghostcacher.Hashes.{Hashes}
use ghostcacher.PodRegistry.{PodSerde, evict_dead_pods}
use ghostcacher.ControlPlane.Eviction.{run_eviction_cycle}
use ghostcacher.ControlPlane.Admin.{AdminSerde, Answer, Request, route}

-- What `tokio::spawn` gets.
pub data Background : Type 0 where
  eviction_loop health_check_loop : Background

pub data Act : Type 0 where
  round : Background → Act
  request : Request → Act

module _ (fl : Float) (w : World) (hashes : Hashes w) (serde : PodSerde) (sv : AdminSerde) where
  -- `if let Err(e) = .. { warn!(..) }`
  unfoldable pub background : Background → Exec w.Store (Unit {0})
  background eviction_loop = do attempt (run_eviction_cycle fl w); pure tt
  background health_check_loop = do attempt (evict_dead_pods w hashes serde); pure tt

  -- A request has an answer, a round none.
  unfoldable pub act : Act → Exec w.Store (Option Answer)
  unfolding background
  act (round b) = do background b; pure none
  act (request r) = do answer ← route w hashes serde sv r; pure (some answer)

  unfoldable pub act_all : List Act → Exec w.Store (List (Option Answer))
  unfolding act
  act_all [] = pure []
  act_all (a ∷ acts) = do answer ← act a; answers ← act_all acts; pure (answer ∷ answers)
