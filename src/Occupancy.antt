-- ===== src/Occupancy.antt =====
-- software/rouge-cuda/src/occupancy.cpp and occupancy.h: how many blocks of a kernel live on one
-- multiprocessor of the reference sm_75. An `int` that the code keeps non-negative is a number;
-- the one cast of a `size_t` to `int` is written out with its wrap.
pub mod Resources
pub mod Monotone
pub mod Dynamic
pub mod PerBlock
pub mod Potential
pub mod Liveness
pub mod Wrap
pub mod Examples
use rouge_v.Base.{
  ℕ, zero, suc, ◌+◌, ◌-◌, ◌*◌, ◌/◌, ◌%◌, ◌^◌, ◌&&◌, ◌||◌, Option, none, some, ltb, leb, ◌==◌,
  if◌then◌else◌,
}

-- `KernelStats`, without the two sizes that no computation here reads.
pub record KernelStats : Type 0 where
  pub num_regs : ℕ
  pub static_smem : ℕ
  pub local_size : ℕ
  pub const_size : ℕ
  pub target_sm : ℕ

abbrev pub warp_size : ℕ
warp_size = 32

abbrev pub max_threads_per_block : ℕ
max_threads_per_block = 1024

abbrev pub max_threads_per_sm : ℕ
max_threads_per_sm = 1024

abbrev pub max_blocks_per_sm : ℕ
max_blocks_per_sm = 16

abbrev pub regs_per_sm : ℕ
regs_per_sm = 65536

abbrev pub regs_per_block : ℕ
regs_per_block = 65536

abbrev pub reg_alloc_granularity : ℕ
reg_alloc_granularity = 256

abbrev pub max_regs_per_thread : ℕ
max_regs_per_thread = 256

abbrev pub sub_partitions : ℕ
sub_partitions = 4

abbrev pub smem_alloc_granularity : ℕ
smem_alloc_granularity = 256

abbrev pub smem_per_sm_default : ℕ
smem_per_sm_default = 65536

abbrev pub smem_per_block_limit : ℕ
smem_per_block_limit = 49152

abbrev pub int_max : ℕ
int_max = 2 ^ 31 - 1

-- `divUp` and `roundUp` on operands that are not negative.
abbrev pub div_up : ℕ → ℕ → ℕ
div_up x y = (x + (y - 1)) / y

abbrev pub round_up : ℕ → ℕ → ℕ
round_up x y = y * div_up x y

-- `alignUpTuring`: the 32K and 64K buckets, or `none` for its `false`.
abbrev pub align_up_turing : ℕ → Option ℕ
align_up_turing size =
    if leb size (32 * 1024)
    then some (32 * 1024)
    else if leb size (64 * 1024)
    then some (64 * 1024)
    else none

-- `static_cast<size_t>(roundUp(static_cast<int>(total), 256))`. The cast keeps the low 32 bits as
-- a two's complement number; C division rounds a negative one towards zero, and the cast back to
-- `size_t` adds 2 ^ 64 to a negative product.
abbrev pub allocated_smem : ℕ → ℕ
allocated_smem total =
    let w = total % 2 ^ 32 in
    let m = 2 ^ 32 - w in
    if ltb w (2 ^ 31)
    then round_up w 256
    else if leb m 255
    then 0
    else if (m - 255) / 256 == 0
    then 0
    else 2 ^ 64 - 256 * ((m - 255) / 256)

-- The thread slots of the multiprocessor, divided by the warps of a block.
pub limit_warps : ℕ → ℕ
limit_warps warps = max_threads_per_sm / warp_size / warps

pub regs_allocated_per_warp : ℕ → ℕ
regs_allocated_per_warp num_regs = round_up (num_regs * warp_size) reg_alloc_granularity

-- Registers are allocated per warp, out of one of the four partitions.
pub limit_regs : ℕ → ℕ → ℕ
unfolding regs_allocated_per_warp
limit_regs num_regs warps =
    let per_warp = regs_allocated_per_warp num_regs in
    let per_cta = per_warp * warps in
    let assumed_per_cta = per_warp * round_up warps sub_partitions in
    if leb assumed_per_cta regs_per_block
      && leb per_cta regs_per_block
      && leb num_regs max_regs_per_thread
      && ltb 0 per_warp
    then regs_per_sm / sub_partitions / per_warp * sub_partitions / warps
    else 0

-- `none` is the early `return 0` of a failed `alignUpTuring`.
pub limit_smem : ℕ → Option ℕ
limit_smem total =
    let allocated = allocated_smem total in
    let share = λ (per_sm : ℕ). if allocated == 0 then int_max else per_sm / allocated in
    if leb allocated smem_per_block_limit
    then (if ltb smem_per_sm_default allocated
        then elim (align_up_turing allocated) [ none ↦ none | some size ↦ some (share size) ]
        else some (share smem_per_sm_default))
    else some 0

abbrev pub lower : ℕ → ℕ → ℕ
lower m limit = if ltb limit m then limit else m

-- `occ_active_blocks`; a `size_t` sum wraps at 2 ^ 64. A block size that is not positive is 0 here.
pub occ_active_blocks : KernelStats → ℕ → ℕ → ℕ
occ_active_blocks st block_size dynamic_smem =
    if block_size == 0 || ltb max_threads_per_block block_size
    then 0
    else let warps = div_up block_size warp_size in
      elim (limit_smem ((st.static_smem + dynamic_smem) % 2 ^ 64)) [
        | none ↦ 0
        | some by_smem ↦
            lower
              (lower (lower (limit_warps warps) (limit_regs st.num_regs warps)) max_blocks_per_sm)
              by_smem
      ]

pub record Best : Type 0 where
  pub block : ℕ
  pub num_blocks : ℕ
  pub threads : ℕ

-- The size handed to the occupancy: a null callback means the fixed one.
abbrev pub dynamic_smem_of : Option (ℕ → ℕ) → ℕ → ℕ → ℕ
dynamic_smem_of none fixed size = fixed
dynamic_smem_of (some callback) fixed size = callback size

-- One round of the loop of `occ_potential_block_size`, up to its early exit.
unfoldable pub try_size : KernelStats → Option (ℕ → ℕ) → ℕ → ℕ → Best → Best
try_size st callback fixed aligned best =
    let size = if leb aligned max_threads_per_block then aligned else max_threads_per_block in
    let active = occ_active_blocks st size (dynamic_smem_of callback fixed size) in
    let threads = size * active in
    if ltb best.threads threads
    then record { block = size; num_blocks = active; threads = threads }
    else best

-- The loop with `warps` rounds left: the size tried is 32 times that.
unfoldable pub potential_loop : KernelStats → Option (ℕ → ℕ) → ℕ → ℕ → Best → Best
potential_loop st callback fixed zero best = best
potential_loop st callback fixed (suc warps) best =
    let best' = try_size st callback fixed (warp_size * suc warps) best in
    let rest = potential_loop st callback fixed warps best' in
    if best'.threads == max_threads_per_sm then best' else rest

abbrev pub no_best : Best
no_best = record { block = 0; num_blocks = 0; threads = 0 }

-- The results are the minimal grid size and the block size.
pub occ_potential_block_size : KernelStats → Option (ℕ → ℕ) → ℕ → ℕ → ℕ × ℕ
occ_potential_block_size st callback fixed num_sms =
    let best = potential_loop st callback fixed 32 no_best in
    (best.num_blocks * num_sms, best.block)

-- `occ_available_dynamic_smem`; `none` is its `false`.
pub occ_available_dynamic_smem : KernelStats → ℕ → ℕ → Option ℕ
occ_available_dynamic_smem st num_blocks block_size =
    if num_blocks == 0
    then none
    else if ltb (occ_active_blocks st block_size 0) num_blocks
    then none
    else let per_sm = if num_blocks == 1 then smem_per_block_limit else smem_per_sm_default in
      let share = per_sm / num_blocks / smem_alloc_granularity * smem_alloc_granularity in
      let avail = if ltb smem_per_block_limit share then smem_per_block_limit else share in
      if ltb avail st.static_smem
      then none
      else let rest = avail - st.static_smem in
        let max_dyn =
          if leb smem_per_block_limit st.static_smem
          then 0
          else smem_per_block_limit - st.static_smem in
        some (if ltb max_dyn rest then max_dyn else rest)
