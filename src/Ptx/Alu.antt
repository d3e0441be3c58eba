-- ===== src/Ptx/Alu.antt =====
-- software/rouge-ptx/ptx.cpp: the integer instructions of `run_thread_step`, as functions of the
-- operands that `operand_u64` reads, numbers below 2 ^ 64, to the value that `setreg` stores. A
-- mnemonic is its operation and the type that it ends with.
pub mod Shift
pub mod Divide
pub mod Multiply
pub mod MinMax
pub mod Field
mod Examples
use rouge_v.Base.{
  ℕ, ◌+◌, ◌-◌, ◌*◌, ◌/◌, ◌%◌, ◌^◌, Bool, true, false, bit_and, bit_or, bit_xor, leb, ltb, ◌==◌,
  ◌&&◌, ◌||◌, Option, none, some, if◌then◌else◌,
}
use rouge_v.Base.Int.{ℤ, pos, negsuc, signed, pattern_of, ◌*ℤ◌, truncated_div, truncated_rem, ltb_ℤ}
use rouge_v.Ptx.Words.{width_mask, sar32, sar64, complement}

-- The type suffix of a mnemonic.
pub data IntType : Type 0 where
  b16 u16 s16 b32 u32 s32 b64 u64 s64 : IntType

abbrev pub int_type_bits : IntType → ℕ
int_type_bits b16 = 16
int_type_bits u16 = 16
int_type_bits s16 = 16
int_type_bits b32 = 32
int_type_bits u32 = 32
int_type_bits s32 = 32
int_type_bits b64 = 64
int_type_bits u64 = 64
int_type_bits s64 = 64

abbrev pub is_signed_int_type : IntType → Bool
is_signed_int_type s16 = true
is_signed_int_type s32 = true
is_signed_int_type s64 = true
is_signed_int_type b16 = false
is_signed_int_type u16 = false
is_signed_int_type b32 = false
is_signed_int_type u32 = false
is_signed_int_type b64 = false
is_signed_int_type u64 = false

-- `static_cast<int32_t>(static_cast<uint32_t>(a)) < 0`, and on 64 bits.
abbrev pub is_negative : ℕ → ℕ → Bool
is_negative bits a = leb (2 ^ (bits - 1)) (a % 2 ^ bits)

-- An amount below the width of the type.
pub shl_within : ℕ → ℕ → ℕ
shl_within a sh = a * 2 ^ sh % 2 ^ 64

pub shr_within : IntType → ℕ → ℕ → ℕ
shr_within type a sh =
    let wide = int_type_bits type == 64 in
    if is_signed_int_type type
    then (if wide then sar64 a sh else sar32 (a % 2 ^ 32) sh)
    else if wide
    then a / 2 ^ sh
    else a % 2 ^ 32 / 2 ^ sh

-- An amount of the width or more.
pub shr_clamped : IntType → ℕ → ℕ
shr_clamped type a =
    if is_signed_int_type type
    then (if int_type_bits type == 64
        then (if is_negative 64 a then 2 ^ 64 - 1 else 0)
        else if is_negative 32 a
        then 0xffffffff
        else 0)
    else 0

pub data LogicOp : Type 0 where
  and_op or_op xor_op not_op shl_op shr_op : LogicOp

-- The block "integer bit logic"; `not` does not read `b`.
pub logic : LogicOp → IntType → ℕ → ℕ → ℕ
logic and_op type a b = width_mask (bit_and a b) (int_type_bits type)
logic or_op type a b = width_mask (bit_or a b) (int_type_bits type)
logic xor_op type a b = width_mask (bit_xor a b) (int_type_bits type)
logic not_op type a b = width_mask (complement 64 a) (int_type_bits type)
logic shl_op type a b =
    let raw = b % 2 ^ 32 in
    width_mask (if leb (int_type_bits type) raw then 0 else shl_within a raw) (int_type_bits type)
logic shr_op type a b =
    let raw = b % 2 ^ 32 in
    width_mask (if leb (int_type_bits type) raw then shr_clamped type a else shr_within type a raw)
      (int_type_bits type)

-- `if (bits == 32 || bits == 64)`: the block passes over the other types.
abbrev pub when_word : IntType → ℕ → Option ℕ
when_word type v = if int_type_bits type == 32 || int_type_bits type == 64 then some v else none

-- The second letter pair of `mul.lo`, `mul.hi`, `mad.lo` and `mad.hi`.
pub data Half : Type 0 where
  lo hi : Half

-- `addend` is 0 for `mul`.
abbrev pub product : Half → IntType → ℕ → ℕ → ℕ → ℕ
product half type a b addend =
    if int_type_bits type == 64
    then (a * b + addend) % 2 ^ 64
    else let prod = a % 2 ^ 32 * (b % 2 ^ 32) in
      elim half [
        | hi ↦
            if is_signed_int_type type
            then width_mask
                (sar64 (pattern_of 64 (signed 32 (a % 2 ^ 32) *ℤ signed 32 (b % 2 ^ 32))) 32)
                (int_type_bits type)
            else width_mask (prod / 2 ^ 32) (int_type_bits type)
        | lo ↦ width_mask ((prod + addend) % 2 ^ 64) (int_type_bits type)
      ]

pub multiply : Half → IntType → ℕ → ℕ → ℕ → Option ℕ
multiply half type a b addend = when_word type (product half type a b addend)

pub data DivOp : Type 0 where
  div_op rem_op : DivOp

abbrev pub divide_signed : DivOp → ℤ → ℤ → ℤ
divide_signed div_op x y = truncated_div x y
divide_signed rem_op x y = truncated_rem x y

abbrev pub divide_unsigned : DivOp → ℕ → ℕ → ℕ
divide_unsigned div_op x y = x / y
divide_unsigned rem_op x y = x % y

-- One width: 0 for a zero divisor, and `x` itself for the least number by -1.
abbrev pub divide_bits : ℕ → DivOp → Bool → ℕ → ℕ → ℕ
divide_bits bits op is_signed a b =
    let x = a % 2 ^ bits in
    let y = b % 2 ^ bits in
    if y == 0
    then 0
    else if is_signed
    then (if x == 2 ^ (bits - 1) && y == 2 ^ bits - 1
        then x
        else pattern_of bits (divide_signed op (signed bits x) (signed bits y)))
    else divide_unsigned op x y

pub divide : DivOp → IntType → ℕ → ℕ → Option ℕ
divide op type a b = when_word type (
    width_mask
      (divide_bits (if int_type_bits type == 32 then 32 else 64) op (is_signed_int_type type) a b)
      (int_type_bits type))

-- `min` and `max`: the signed comparison of both operands, or the unsigned one.
abbrev pub less : ℕ → Bool → ℕ → ℕ → Bool
less bits is_signed x y = if is_signed then ltb_ℤ (signed bits x) (signed bits y) else ltb x y

pub min_max : Bool → IntType → ℕ → ℕ → Option ℕ
min_max is_min type a b =
    let bits = int_type_bits type in
    let x = a % 2 ^ bits in
    let y = b % 2 ^ bits in
    let sgn = is_signed_int_type type in
    when_word type (
      width_mask
        (if is_min
          then (if less bits sgn x y then x else y)
          else if less bits sgn y x
          then x
          else y)
        bits)
