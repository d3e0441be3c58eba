-- ===== src/Ptx/Words.antt =====
-- software/rouge-ptx/ptx.cpp: the integer helpers of the interpreter. A `uint32_t` or `uint64_t`
-- is a number below 2 ^ 32 or 2 ^ 64; what C reduces is written with `%`.
pub mod Shifts
pub mod Counts
mod Examples
use rouge_v.Base.{
  ℕ, ◌+◌, ◌-◌, ◌*◌, ◌/◌, ◌%◌, ◌^◌, Bool, bit_and, bit_xor, leb, ltb, ◌==◌, if◌then◌else◌,
}

pub width_mask : ℕ → ℕ → ℕ
width_mask v bits = if leb 64 bits then v else bit_and v (2 ^ bits - 1)

pub sext64 : ℕ → ℕ → ℕ
sext64 v bits =
    if leb 64 bits
    then v
    else let sign = 2 ^ (bits - 1) in (bit_xor v sign + 2 ^ 64 - sign) % 2 ^ 64

-- `~v` on an unsigned word of `bits` bits.
abbrev pub complement : ℕ → ℕ → ℕ
complement bits v = 2 ^ bits - 1 - v

pub sar32 : ℕ → ℕ → ℕ
sar32 v sh =
    if sh == 0
    then v
    else if bit_and v 0x80000000 == 0
    then v / 2 ^ sh
    else complement 32 (complement 32 v / 2 ^ sh)

pub sar64 : ℕ → ℕ → ℕ
sar64 v sh =
    if sh == 0
    then v
    else if bit_and v 0x8000000000000000 == 0
    then v / 2 ^ sh
    else complement 64 (complement 64 v / 2 ^ sh)

abbrev pub u32 : ℕ → ℕ
u32 v = v % 2 ^ 32

abbrev pub u64 : ℕ → ℕ
u64 v = v % 2 ^ 64

-- Each line of the source is one binding; the first difference does not go below zero.
pub popcount32 : ℕ → ℕ
popcount32 v =
    let pairs = u32 (v + 2 ^ 32 - bit_and (v / 2) 0x55555555) in
    let nibbles = u32 (bit_and pairs 0x33333333 + bit_and (pairs / 4) 0x33333333) in
    let bytes = bit_and (u32 (nibbles + nibbles / 16)) 0x0f0f0f0f in
    u32 (bytes * 0x01010101) / 2 ^ 24

pub popcount64 : ℕ → ℕ
popcount64 v = popcount32 (u32 v) + popcount32 (u32 (v / 2 ^ 32))

-- One `if ((v & mask) == 0) { n += sh; v <<= sh; }`.
pub clz_stage : ℕ → ℕ → ℕ × ℕ → ℕ × ℕ
clz_stage mask sh (n, v) = if bit_and v mask == 0 then (n + sh, u32 (v * 2 ^ sh)) else (n, v)

-- The last `if` only counts: its shifted `v` is not read.
pub clz32 : ℕ → ℕ
clz32 v =
    if v == 0
    then 32
    else (clz_stage 0x80000000 1 (
        clz_stage 0xc0000000 2
          (clz_stage 0xf0000000 4 (clz_stage 0xff000000 8 (clz_stage 0xffff0000 16 (0, v)))))).0

pub clz64 : ℕ → ℕ
clz64 v =
    if v == 0
    then 64
    else if u32 (v / 2 ^ 32) == 0
    then 32 + clz32 (u32 v)
    else clz32 (u32 (v / 2 ^ 32))
