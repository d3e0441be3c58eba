-- ===== src/Occupancy/PerBlock.antt =====
-- The shared memory of one block.
use native.Mathlib.Decide.{dec_le}
use rouge_v.Base.{ℕ, ◌+◌, ◌-◌, ◌%◌, ◌^◌, ◌≤◌, ◌<◌, ◌≡◌, arith, some}
use rouge_v.Occupancy.{KernelStats, occ_active_blocks, occ_available_dynamic_smem}
use rouge_v.Occupancy.Resources.{limit_smem-large}

-- A kernel that is active keeps the limit of a block.
pub active-fits :
    (st : KernelStats) (block_size : ℕ)
    → st.static_smem < 2 ^ 31
    → 0 < occ_active_blocks st block_size 0
    → st.static_smem ≤ 49152
unfolding occ_active_blocks
active-fits st block_size small active = elim (dec_le st.static_smem 49152) [
  | yes fits ↦ fits
  | no big ↦
      let whole : (st.static_smem + 0) % 2 ^ 64 ≡ st.static_smem = omega arith in
      let none_left = limit_smem-large st.static_smem (omega arith) small in
      absurd (
        let gone : occ_active_blocks st block_size 0 ≡ 0 = rw (whole, none_left) (ground arith) in
        omega arith)
]

-- One block may have what its static shared memory leaves of the limit of a block.
pub available_one :
    (st : KernelStats) (block_size : ℕ)
    → st.static_smem ≤ 49152
    → 0 < occ_active_blocks st block_size 0
    → occ_available_dynamic_smem st 1 block_size ≡ some (49152 - st.static_smem)
unfolding occ_available_dynamic_smem
available_one st block_size fits active = ground arith
