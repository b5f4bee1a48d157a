-- ===== src/PodRegistry/Heartbeat.antt =====
-- When a pod counts as dead.
use ghostcacher.Prelude.{ℕ, ◌+◌, ◌<◌, ◌^◌, ◌≡◌, ap, ◌∙◌, ltb, arith}
use ghostcacher.Prelude.Int.{pos, sub_i64, sub_i64_pos, ltb_ℤ}
use ghostcacher.PodRegistry.{PodInfo, is_dead}

-- Of times from 1970 on, a pod is dead exactly when more than 45 seconds have passed since its
-- last heartbeat; one from the future is not, and nothing overflows.
pub is_dead_ok :
    (now at : ℕ) (info : PodInfo)
    → info.last_heartbeat ≡ pos at
    → now < 2 ^ 63
    → at < 2 ^ 63
    → is_dead (pos now) info ≡ ltb (at + 45) now
unfolding is_dead
is_dead_ok now at info e h k =
    ap (λ z. ltb_ℤ (pos 45) (sub_i64 (pos now) z)) e
    ∙ ap (ltb_ℤ (pos 45)) (sub_i64_pos now at h k)
    ∙ ground arith
