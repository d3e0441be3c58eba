-- ===== src/Occupancy/Examples.antt =====
-- The theorems on the occupancy at one kernel of 32 registers and 1 KiB of shared memory.
use rouge_v.Base.{◌+◌, ◌*◌, ◌^◌, ◌≤◌, ◌<◌, ◌≡◌, ◌↔◌, refl, none, some, arith}
use rouge_v.Occupancy.{
  KernelStats, Best, occ_active_blocks, occ_potential_block_size, occ_available_dynamic_smem,
  limit_smem, limit_warps, limit_regs, potential_loop, try_size,
}
use rouge_v.Occupancy.Resources.{IsLaunchable, Fits, le-occ_active_blocks_iff}
use rouge_v.Occupancy.Dynamic.{occ_available_dynamic_smem_exact}
use rouge_v.Occupancy.Potential.{IsBest, occ_potential_block_size-IsBest}
use rouge_v.Occupancy.Wrap.{occ_active_blocks_wraps}

abbrev pub tile : KernelStats
tile = record { num_regs = 32; static_smem = 1024; local_size = 0; const_size = 0; target_sm = 75 }

tile-IsLaunchable : IsLaunchable tile 256 0
tile-IsLaunchable = omega arith

four_blocks : occ_active_blocks tile 256 0 ≡ 4
unfolding occ_active_blocks limit_smem limit_warps limit_regs
four_blocks = refl

pub tile_active : 0 < occ_active_blocks tile 256 0
tile_active = omega (arith, four_blocks)

best_size : occ_potential_block_size tile none 0 1 ≡ (1, 1024)
unfolding occ_potential_block_size occ_active_blocks limit_smem limit_warps limit_regs
    potential_loop try_size
best_size = refl

share_of_two : occ_available_dynamic_smem tile 2 256 ≡ some 31744
unfolding occ_available_dynamic_smem occ_active_blocks limit_smem limit_warps limit_regs
share_of_two = refl

le-occ_active_blocks_iff_example : (4 ≤ occ_active_blocks tile 256 0) ↔ Fits tile 256 0 4
le-occ_active_blocks_iff_example = le-occ_active_blocks_iff tile 256 0 tile-IsLaunchable 4

occ_available_dynamic_smem_exact_example : (2 ≤ occ_active_blocks tile 256 31744) ↔ (31744 ≤ 31744)
occ_available_dynamic_smem_exact_example =
    occ_available_dynamic_smem_exact tile 2 256 31744 31744 share_of_two (omega arith)

occ_potential_block_size-IsBest_example :
    (best : Best) × IsBest tile none 0 0 best
    × (occ_potential_block_size tile none 0 1 ≡ (best.num_blocks * 1, best.block))
occ_potential_block_size-IsBest_example = occ_potential_block_size-IsBest tile none 0 1

occ_active_blocks_wraps_example :
    occ_active_blocks tile 256 (512 + 2 ^ 32) ≡ occ_active_blocks tile 256 512
occ_active_blocks_wraps_example = occ_active_blocks_wraps tile 256 512 (omega arith)
