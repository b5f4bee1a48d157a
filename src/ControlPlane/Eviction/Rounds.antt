-- ===== src/ControlPlane/Eviction/Rounds.antt =====
-- control-plane/src/eviction.rs: the store after rounds of the eviction loop.
use ghostcacher.Prelude.{ℕ, zero, suc, ◌≡◌, refl}
use ghostcacher.Float.{Float}
use ghostcacher.Exec.{ok, ◌>>=◌}
use ghostcacher.World.{World}
use ghostcacher.ControlPlane.Eviction.{run_eviction_cycle, run_rounds, sort_candidates, evict_count}

module _ (fl : Float) (w : World) where
  abbrev pub slept : ℕ → w.Store → w.Store
  slept zero s = s
  slept (suc n) s = slept n (w.sleep 300_000 s)

  -- The first n rounds of the eviction loop end, with no panic, and leave the store as n sleeps of
  -- five minutes do: whatever the entries and their number, no round removes one.
  pub run_rounds-slept : (n : ℕ) (s : w.Store) → run_rounds fl w n s ≡ (ok tt, slept n s)
  unfolding run_rounds ◌>>=◌ run_eviction_cycle sort_candidates evict_count
      ghostcacher.Prelude.Sort.sort
  run_rounds-slept zero s = refl
  run_rounds-slept (suc n) s = run_rounds-slept n (w.sleep 300_000 s)
