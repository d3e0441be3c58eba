-- ===== src/Occupancy/Wrap.antt =====
-- The cast of the shared memory to `int`.
use rouge_v.Base.{ℕ, ◌+◌, ◌%◌, ◌^◌, ◌<◌, ◌≡◌, arith}
use rouge_v.Occupancy.{KernelStats, limit_smem, occ_active_blocks}

limit_smem_wraps : (t u : ℕ) → t % 2 ^ 32 ≡ u % 2 ^ 32 → limit_smem t ≡ limit_smem u
unfolding limit_smem
limit_smem_wraps t u e = ground arith

-- A request of 4 GiB more dynamic shared memory is answered as one without them, as long as the
-- sum does not pass 2 ^ 64: only the low 32 bits of the size are looked at.
pub occ_active_blocks_wraps :
    (st : KernelStats) (block_size dynamic_smem : ℕ)
    → st.static_smem + dynamic_smem + 2 ^ 32 < 2 ^ 64
    → occ_active_blocks st block_size (dynamic_smem + 2 ^ 32)
      ≡ occ_active_blocks st block_size dynamic_smem
unfolding occ_active_blocks
occ_active_blocks_wraps st block_size dynamic_smem h = rw (
    limit_smem_wraps ((st.static_smem + (dynamic_smem + 2 ^ 32)) % 2 ^ 64)
      ((st.static_smem + dynamic_smem) % 2 ^ 64) (omega arith))
