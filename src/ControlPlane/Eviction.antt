-- ===== src/ControlPlane/Eviction.antt =====
-- control-plane/src/eviction.rs: the eviction engine. The endless loop is its rounds, of which the
-- first n are run; log lines are left out.
pub mod Rounds
use ghostcacher.Prelude.{
  ℕ, zero, suc, ◌-◌, ◌*◌, Bool, ◌&&◌, ◌||◌, false, Option, none, some, List, [], ◌∷◌, ltb, ◌==◌,
  length, if◌then◌else◌,
}
use ghostcacher.Prelude.Sort.{sort}
use ghostcacher.Text.{Text}
use ghostcacher.Float.{Float}
use ghostcacher.Exec.{Exec, ok, ◌>>=◌, ◌>>◌, pure, attempt, or_panic}
use ghostcacher.World.{World}

abbrev pub eviction_interval_secs : ℕ
eviction_interval_secs = 300

abbrev pub max_cache_entries : ℕ
max_cache_entries = 10_000

module _ (fl : Float) where
  open fl use {F64, sub, div, mul, max, literal}

  pub record EvictionCandidate : Type 0 where
    pub key : Text
    pub score : F64

  -- The closure `_score_entry`.
  unfoldable pub score_entry : F64 → F64 → F64 → F64 → F64 → F64
  score_entry now type_prio hit_count tokens last_hit =
      let age_hours = max (div (sub now last_hit) (literal 36000 1)) (literal 1 2) in
      div (mul (mul type_prio (max hit_count (literal 10 1))) tokens) age_hours

  abbrev pub by_score : EvictionCandidate → EvictionCandidate → Bool
  by_score a b = fl.le a.score b.score

  unfoldable pub any_nan_score : List EvictionCandidate → Bool
  any_nan_score [] = false
  any_nan_score (c ∷ candidates) = fl.is_nan c.score || any_nan_score candidates

  -- `sort_by` with `partial_cmp(..).unwrap()`.
  unfoldable pub sort_candidates : List EvictionCandidate → Option (List EvictionCandidate)
  unfolding any_nan_score
  sort_candidates candidates =
      if ltb 1 (length candidates) && any_nan_score candidates
      then none
      else some (sort by_score candidates)

  -- `saturating_sub`.
  unfoldable pub evict_count : List EvictionCandidate → ℕ
  evict_count candidates = length candidates - max_cache_entries

  module _ (w : World) where
    -- No candidate is ever collected; past the count there is a log line only.
    unfoldable pub run_eviction_cycle : Exec w.Store (Unit {0})
    unfolding sort_candidates evict_count
    run_eviction_cycle = do
      candidates ← or_panic (sort_candidates [])
      if evict_count candidates == 0 then pure tt else pure tt

    unfoldable pub eviction_round : Exec w.Store (Unit {0})
    unfolding run_eviction_cycle
    eviction_round = do
      (λ s. (ok tt, w.sleep (eviction_interval_secs * 1000) s))
      attempt run_eviction_cycle
      pure tt

    unfoldable pub run_rounds : ℕ → Exec w.Store (Unit {0})
    unfolding eviction_round
    run_rounds zero = pure tt
    run_rounds (suc n) = do eviction_round; run_rounds n

module _ (w : World) where
  -- The arms of the match only log.
  unfoldable pub flush : Text → Exec w.Store ℕ
  flush scope = pure 0
