-- ===== src/Occupancy/Monotone.antt =====
-- More registers or more shared memory never give more blocks.
use native.Mathlib.Nat.{le_trans}
use rouge_v.Base.{ℕ, zero, suc, ◌*◌, ◌≤◌, ◌<◌, ◌≡◌, ◌⊎◌, inl, inr, arith}
use rouge_v.Base.Arith.{mul_mono_left, div_antitone, div_mono}
use rouge_v.Occupancy.Resources.{limit_regs-le, limit_regs-open}
use rouge_v.Occupancy.{KernelStats, div_up, round_up, limit_regs, occ_active_blocks}

-- The register limit is 0, or the guard holds.
limit_regs_guard :
    (n w : ℕ) → (limit_regs n w ≡ 0) ⊎ ((n ≤ 256) × (round_up (n * 32) 256 * round_up w 4 ≤ 65536))
unfolding limit_regs
limit_regs_guard n w = ground arith

limit_regs_antitone : (n n' w : ℕ) → 0 < w → 0 < n → n ≤ n' → limit_regs n' w ≤ limit_regs n w
limit_regs_antitone n n' w wpos pos h = elim (limit_regs_guard n' w) [
  | inl e ↦ omega (arith, e)
  | inr (n256, fits) ↦
      let per_le : round_up (n * 32) 256 ≤ round_up (n' * 32) 256 = omega arith in
      let fits' : round_up (n * 32) 256 * round_up w 4 ≤ 65536 =
        le_trans (mul_mono_left _ _ (round_up w 4) per_le) fits in
      rw (limit_regs-open n w pos (omega arith) fits') (
        le_trans (limit_regs-le n' w) (
          div_mono _ _ w wpos (
            mul_mono_left _ _ 4
              (div_antitone 16384 (round_up (n * 32) 256) _ (omega arith) per_le))))
]

-- An over-estimate of the registers can only lower the answer, at any block and memory size.
occ_active_blocks_antitone :
    (st : KernelStats) (num_regs' block_size dynamic_smem : ℕ)
    → 0 < st.num_regs
    → st.num_regs ≤ num_regs'
    → occ_active_blocks (record st { num_regs = num_regs' }) block_size dynamic_smem
      ≤ occ_active_blocks st block_size dynamic_smem
unfolding occ_active_blocks
occ_active_blocks_antitone st num_regs' zero dynamic_smem pos h = omega arith
occ_active_blocks_antitone st num_regs' (suc b) dynamic_smem pos h =
    ground
      (arith, limit_regs_antitone st.num_regs num_regs' (div_up (suc b) 32) (omega arith) pos h)
