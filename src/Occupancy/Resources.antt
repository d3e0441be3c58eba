-- ===== src/Occupancy/Resources.antt =====
-- What the answer of `occ_active_blocks` means for the resources of a multiprocessor.
use rouge_v.Base.{ℕ, zero, suc, ◌+◌, ◌*◌, ◌/◌, ◌%◌, ◌^◌, ◌≤◌, ◌<◌, ◌≡◌, ◌↔◌, refl, some, arith}
use native.Mathlib.Nat.{le_trans, le-div_iff_mul-le, div-mul-le_self}
use rouge_v.Base.Arith.{mul_mono}
use rouge_v.Occupancy.{
  KernelStats, div_up, round_up, limit_warps, limit_regs, limit_smem, lower, occ_active_blocks,
  int_max,
}

le-lower_iff : (k a b : ℕ) → (k ≤ lower a b) ↔ ((k ≤ a) × (k ≤ b))
le-lower_iff k a b = ground arith

le-limit_warps_iff : (k w : ℕ) → 0 < w → (k ≤ limit_warps w) ↔ (k * w ≤ 32)
unfolding limit_warps
le-limit_warps_iff k w h = le-div_iff_mul-le h

-- `q` warps of each of the four partitions hold `k` blocks of `w` warps.
abbrev pub RegsFit : ℕ → ℕ → ℕ → ℕ → Type 0
RegsFit per_warp k w q = (q * per_warp ≤ 16384) × (k * w ≤ 4 * q)

pub limit_regs-le : (n w : ℕ) → limit_regs n w ≤ 16384 / round_up (n * 32) 256 * 4 / w
unfolding limit_regs
limit_regs-le n w = ground arith

le-limit_regs :
    (k n w : ℕ)
    → 0 < w
    → k ≤ limit_regs n w
    → RegsFit (round_up (n * 32) 256) k w (16384 / round_up (n * 32) 256)
le-limit_regs k n w pos h = (
  div-mul-le_self 16384 (round_up (n * 32) 256),
  omega (arith, (le-div_iff_mul-le {k = w} pos).0 (le_trans h (limit_regs-le n w))),
)

pub limit_regs-open :
    (n w : ℕ)
    → 0 < n
    → n ≤ 256
    → round_up (n * 32) 256 * round_up w 4 ≤ 65536
    → limit_regs n w ≡ 16384 / round_up (n * 32) 256 * 4 / w
unfolding limit_regs
limit_regs-open n w npos n256 fits =
    ground (arith, mul_mono (round_up (n * 32) 256) w (round_up w 4) (omega arith))

limit_regs-ge :
    (k n w q : ℕ)
    → 0 < w
    → 0 < n
    → n ≤ 256
    → round_up (n * 32) 256 * round_up w 4 ≤ 65536
    → RegsFit (round_up (n * 32) 256) k w q
    → k ≤ limit_regs n w
limit_regs-ge k n w q pos npos n256 fits r = rw (limit_regs-open n w npos n256 fits) (
    (le-div_iff_mul-le pos).1
      (omega (arith, (le-div_iff_mul-le {k = round_up (n * 32) 256} {x = q} (omega arith)).1 r.0)))

pub limit_smem-zero : limit_smem 0 ≡ some int_max
unfolding limit_smem
limit_smem-zero = refl

pub limit_smem-small : (t : ℕ) → 0 < t → t ≤ 49152 → limit_smem t ≡ some (65536 / round_up t 256)
unfolding limit_smem
limit_smem-small t pos h = ground arith

-- Above the limit of a block nothing fits, up to the largest size that an `int` holds.
pub limit_smem-large : (t : ℕ) → 49152 < t → t < 2 ^ 31 → limit_smem t ≡ some 0
unfolding limit_smem
limit_smem-large t pos h = ground arith

-- `k` blocks of `block_size` threads fit one multiprocessor: their warps in its 32 slots, their
-- number under the limit of 16, their registers in its four partitions, which hold `q` warps
-- each, and their shared memory, in units of 256 bytes, in 64 KiB.
pub record Fits (st : KernelStats) (block_size dynamic_smem k : ℕ) : Type 0 where
  pub per_partition : ℕ
  pub warps : k * div_up block_size 32 ≤ 32
  pub blocks : k ≤ 16
  pub partition : per_partition * round_up (st.num_regs * 32) 256 ≤ 16384
  pub regs : k * div_up block_size 32 ≤ 4 * per_partition
  pub smem : k * round_up (st.static_smem + dynamic_smem) 256 ≤ 65536

-- A block that may be launched: its threads, registers and shared memory within a block's limits.
pub record IsLaunchable (st : KernelStats) (block_size dynamic_smem : ℕ) : Type 0 where
  pub some_threads : 0 < block_size
  pub threads : block_size ≤ 1024
  pub some_regs : 0 < st.num_regs
  pub regs : st.num_regs ≤ 256
  pub regs_per_block : round_up (st.num_regs * 32) 256 * round_up (div_up block_size 32) 4 ≤ 65536
  pub smem : st.static_smem + dynamic_smem ≤ 49152

pub le-limit_smem :
    (k t m : ℕ)
    → t ≤ 49152
    → limit_smem t ≡ some m
    → k ≤ 16
    → (k ≤ m) ↔ (k * round_up t 256 ≤ 65536)
le-limit_smem k zero m h e small =
    let m_max : m ≡ int_max = ground (arith, limit_smem-zero) in
    (λ _. omega arith, λ _. omega arith)
le-limit_smem k (suc t) m h e small =
    let e' : m ≡ 65536 / round_up (suc t) 256 =
      ground (arith, limit_smem-small (suc t) (omega arith) h) in
    rw e' (le-div_iff_mul-le (omega arith))

pub limit_smem_total : (t : ℕ) → t ≤ 49152 → (m : ℕ) × (limit_smem t ≡ some m)
limit_smem_total zero h = (int_max, limit_smem-zero)
limit_smem_total (suc t) h =
    (65536 / round_up (suc t) 256, limit_smem-small (suc t) (omega arith) h)

-- The answer of a launchable block, as the least of the four limits.
active_open :
    (st : KernelStats) (block_size dynamic_smem m : ℕ)
    → IsLaunchable st block_size dynamic_smem
    → limit_smem (st.static_smem + dynamic_smem) ≡ some m
    → occ_active_blocks st block_size dynamic_smem
      ≡ lower
          (lower
            (lower
              (limit_warps (div_up block_size 32))
              (limit_regs st.num_regs (div_up block_size 32)))
            16)
          m
unfolding occ_active_blocks
active_open st block_size dynamic_smem m l e =
    let e' : (st.static_smem + dynamic_smem) % 2 ^ 64 ≡ st.static_smem + dynamic_smem =
      omega arith in
    rw (e', e) (ground arith)

module _ (st : KernelStats) (block_size dynamic_smem : ℕ)
    (l : IsLaunchable st block_size dynamic_smem) where
  -- A launchable block: `k` blocks fit one multiprocessor exactly when `k` is at most the answer.
  pub le-occ_active_blocks_iff :
      (k : ℕ)
      → (k ≤ occ_active_blocks st block_size dynamic_smem) ↔ Fits st block_size dynamic_smem k
  le-occ_active_blocks_iff k =
      let w = div_up block_size 32 in
      let pos : 0 < div_up block_size 32 = (let p = l.some_threads in omega arith) in
      let (m, e) = limit_smem_total (st.static_smem + dynamic_smem) l.smem in
      rw (active_open st block_size dynamic_smem m l e) (
        λ h.
            let parts : (k ≤ limit_warps w) × (k ≤ limit_regs st.num_regs w) × (k ≤ 16) × (k ≤ m) =
              ground arith in
            let r = le-limit_regs k st.num_regs w pos parts.1 in
            record {
              per_partition = 16384 / round_up (st.num_regs * 32) 256;
              warps = (le-limit_warps_iff k w pos).0 parts.0;
              blocks = parts.2;
              partition = r.0;
              regs = r.1;
              smem = (le-limit_smem k _ m l.smem e parts.2).0 parts.3;
            },
        λ f. ground (
          arith,
          (le-limit_warps_iff k w pos).1 f.warps,
          limit_regs-ge k st.num_regs w f.per_partition pos l.some_regs l.regs l.regs_per_block
              (f.partition, f.regs),
          (le-limit_smem k _ m l.smem e f.blocks).1 f.smem,
        ),
      )
