-- ===== src/ControlPlane/Admin/Totals.antt =====
-- The block count of the cluster.
use ghostcacher.Prelude.{ℕ, ◌≡◌, ◌+◌, ◌%◌, ◌^◌, ◌<◌, ◌∙◌, List, [], ◌∷◌, map, arith}
use ghostcacher.PodRegistry.{PodInfo}
use ghostcacher.ControlPlane.Admin.{sum_u32, total_kv_blocks}

-- The sum with no bound.
abbrev pub blocks_of : List PodInfo → ℕ
blocks_of [] = 0
blocks_of (p ∷ pods) = p.kv_block_count + blocks_of pods

sum_u32-blocks_of :
    (acc : ℕ) (pods : List PodInfo)
    → acc < 2 ^ 32
    → sum_u32 acc (map (λ (p : PodInfo). p.kv_block_count) pods) ≡ (acc + blocks_of pods) % 2 ^ 32
unfolding sum_u32
sum_u32-blocks_of acc [] h = omega arith
sum_u32-blocks_of acc (p ∷ pods) h =
    sum_u32-blocks_of ((acc + p.kv_block_count) % 2 ^ 32) pods (omega arith) ∙ omega arith

-- The total of the pods' blocks that the statistics give is their sum reduced to 32 bits.
pub total_kv_blocks-blocks_of :
    (pods : List PodInfo) → total_kv_blocks pods ≡ blocks_of pods % 2 ^ 32
unfolding total_kv_blocks
total_kv_blocks-blocks_of pods = sum_u32-blocks_of 0 pods (omega arith) ∙ omega arith
