-- ===== src/Occupancy/Dynamic.antt =====
-- `occ_available_dynamic_smem` against `occ_active_blocks`.
use native.Mathlib.Nat.{le_trans, mul-div-le, lt-mul-div-succ}
use native.Mathlib.Decide.{dec_le}
use rouge_v.Base.Arith.{mul_mono, div_antitone}
use rouge_v.Base.{
  ℕ, zero, suc, ◌+◌, ◌*◌, ◌/◌, ◌%◌, ◌^◌, ◌≤◌, ◌<◌, ◌≡◌, ◌↔◌, refl, some, arith, ◌==◌, if◌then◌else◌,
}
use rouge_v.Occupancy.Resources.{le-limit_smem, limit_smem_total, limit_smem-large}
use rouge_v.Occupancy.{
  KernelStats, div_up, round_up, limit_warps, limit_regs, limit_smem, lower, occ_active_blocks,
  occ_available_dynamic_smem,
}

-- All that the answer depends on besides the shared memory.
other_limits : KernelStats → ℕ → ℕ
other_limits st block_size =
    lower
      (lower (limit_warps (div_up block_size 32)) (limit_regs st.num_regs (div_up block_size 32)))
      16

le-active_iff :
    (st : KernelStats) (block_size dynamic_smem k m : ℕ)
    → 0 < k
    → st.static_smem + dynamic_smem < 2 ^ 31
    → limit_smem (st.static_smem + dynamic_smem) ≡ some m
    → (k ≤ occ_active_blocks st block_size dynamic_smem)
      ↔ ((0 < block_size) × (block_size ≤ 1024) × (k ≤ other_limits st block_size) × (k ≤ m))
unfolding occ_active_blocks other_limits
le-active_iff st block_size dynamic_smem k m pos small e =
    let e' : (st.static_smem + dynamic_smem) % 2 ^ 64 ≡ st.static_smem + dynamic_smem =
      omega arith in
    rw (e', e) (ground arith)

-- What one of `n` blocks may hold, in units of 256 bytes.
per_sm : ℕ → ℕ
per_sm n = if n == 1 then 49152 else 65536

unit_share : ℕ → ℕ
unit_share n = per_sm n / n / 256 * 256

unit_share_one : unit_share 1 ≡ 49152
unfolding unit_share per_sm
unit_share_one = refl

unit_share_many : (n : ℕ) → 1 < n → (unit_share n ≡ 65536 / n / 256 * 256) × (65536 / n ≤ 32768)
unfolding unit_share per_sm
unit_share_many n h = (ground arith, div_antitone 65536 2 n (omega arith) h)

unit_share_fits : (n t : ℕ) → 0 < n → t ≤ unit_share n → (n * round_up t 256 ≤ 65536) × (t ≤ 49152)
unit_share_fits zero t pos h = absurd (omega arith)
unit_share_fits (suc zero) t pos h = omega (arith, unit_share_one)
unit_share_fits (suc (suc n)) t pos h =
    let (e, top) = unit_share_many (suc (suc n)) (omega arith) in
    let small : round_up t 256 ≤ 65536 / suc (suc n) = omega arith in
    (le_trans (mul_mono (suc (suc n)) _ _ small) (mul-div-le 65536 (suc (suc n))), omega arith)

unit_share_tight : (n t : ℕ) → 0 < n → unit_share n < t → t ≤ 49152 → 65536 < n * round_up t 256
unit_share_tight zero t pos h small = absurd (omega arith)
unit_share_tight (suc zero) t pos h small = absurd (omega (arith, unit_share_one))
unit_share_tight (suc (suc n)) t pos h small =
    let e = (unit_share_many (suc (suc n)) (omega arith)).0 in
    let big : 65536 / suc (suc n) + 1 ≤ round_up t 256 = omega arith in
    le_trans (lt-mul-div-succ 65536 (omega arith)) (mul_mono (suc (suc n)) _ _ big)

available_small :
    (st : KernelStats) (n block_size avail share : ℕ)
    → unit_share n ≡ share
    → share ≤ 49152
    → occ_available_dynamic_smem st n block_size ≡ some avail
    → (0 < n) × (n ≤ occ_active_blocks st block_size 0) × (st.static_smem + avail ≡ share)
unfolding occ_available_dynamic_smem unit_share per_sm
available_small st n block_size avail share s top e = ground arith

unit_share-le : (n : ℕ) → unit_share n ≤ 49152
unfolding unit_share
unit_share-le zero = omega arith
unit_share-le (suc zero) = omega (arith, unit_share_one)
unit_share-le (suc (suc n)) = omega (arith, unit_share_many (suc (suc n)) (omega arith))

-- The limit by shared memory admits `n` blocks exactly up to the share.
le-limit_by_share :
    (n t m : ℕ) → 0 < n → n ≤ 16 → t < 2 ^ 31 → limit_smem t ≡ some m → (n ≤ m) ↔ (t ≤ unit_share n)
le-limit_by_share n t m pos n16 small e = elim (dec_le t 49152) [
  | yes fits ↦
      let iff = le-limit_smem n t m fits e n16 in
      (
        λ h. elim (dec_le t (unit_share n)) [
          | yes p ↦ p
          | no p ↦ absurd (omega (arith, iff.0 h, unit_share_tight n t pos (omega arith) fits))
        ],
        λ h. iff.1 (unit_share_fits n t pos h).0,
      )
  | no big ↦
      let z : m ≡ 0 = ground (arith, limit_smem-large t (omega arith) small) in
      (λ h. absurd (omega arith), λ h. absurd (omega (arith, unit_share-le n)))
]

limit_smem_value : (t : ℕ) → t < 2 ^ 31 → (m : ℕ) × (limit_smem t ≡ some m)
limit_smem_value t small = elim (dec_le t 49152) [
  | yes fits ↦ limit_smem_total t fits
  | no big ↦ (0, limit_smem-large t (omega arith) small)
]

-- Where the code reports `avail` bytes of dynamic shared memory for `n` blocks, `n` blocks are
-- active with `d` bytes exactly when `d` is at most `avail`, for every `d` in range of an `int`.
pub occ_available_dynamic_smem_exact :
    (st : KernelStats) (n block_size avail d : ℕ)
    → occ_available_dynamic_smem st n block_size ≡ some avail
    → st.static_smem + d < 2 ^ 31
    → (n ≤ occ_active_blocks st block_size d) ↔ (d ≤ avail)
unfolding other_limits
occ_available_dynamic_smem_exact st n block_size avail d e small =
    let (pos, now, total) = available_small st n block_size avail _ refl (unit_share-le n) e in
    let (m, em) = limit_smem_value (st.static_smem + d) small in
    let (m₀, em₀) = limit_smem_value (st.static_smem + 0) (omega (arith, unit_share-le n)) in
    let base =
      (le-active_iff st block_size 0 n m₀ pos (omega (arith, unit_share-le n)) em₀).0 now in
    let iff = le-active_iff st block_size d n m pos small em in
    let by_share = le-limit_by_share n (st.static_smem + d) m pos (ground arith) small em in
    (
      λ h. omega (arith, by_share.0 (iff.0 h).3),
      λ h. iff.1 (base.0, base.1, base.2, by_share.1 (omega arith)),
    )
