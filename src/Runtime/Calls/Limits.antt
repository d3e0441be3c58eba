-- ===== src/Runtime/Calls/Limits.antt =====
-- The limit that `cudaFuncGetAttributes` reports against the occupancy.
use rouge_v.Base.{ℕ, ◌+◌, ◌-◌, ◌^◌, ◌≤◌, ◌<◌, ◌≡◌, ◌↔◌, arith}
use rouge_v.Occupancy.{KernelStats, occ_active_blocks}
use rouge_v.Occupancy.Dynamic.{occ_available_dynamic_smem_exact}
use rouge_v.Occupancy.PerBlock.{active-fits, available_one}
use rouge_v.Runtime.Device.{max_dynamic_shared_size_bytes}

-- Where blocks of a size are active without dynamic shared memory, they are with `d` bytes of it
-- exactly when `d` is at most the limit.
pub max_dynamic_shared_size_bytes_exact :
    (st : KernelStats) (block_size d : ℕ)
    → st.static_smem + d < 2 ^ 31
    → 0 < occ_active_blocks st block_size 0
    → (0 < occ_active_blocks st block_size d) ↔ (d ≤ max_dynamic_shared_size_bytes st)
max_dynamic_shared_size_bytes_exact st block_size d small active =
    let fits = active-fits st block_size (omega arith) active in
    let exact =
      occ_available_dynamic_smem_exact st 1 block_size (49152 - st.static_smem) d
        (available_one st block_size fits (omega arith)) small in
    let limit : max_dynamic_shared_size_bytes st ≡ 49152 - st.static_smem = ground arith in
    rw limit (λ h. exact.0 (omega arith), λ h. omega (arith, exact.1 h))
