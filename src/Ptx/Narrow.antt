-- ===== src/Ptx/Narrow.antt =====
-- software/rouge-ptx/ptx.cpp: the narrow float formats e4m3, e5m2, e3m2, e2m3 and e2m1. A `float`
-- is its binary32 pattern. An `int` that may be negative is written on the side of the test where
-- it is not: `tExp` of the source is `t - 127` for the `t` below.
pub mod RoundTrip
pub mod Saturation
mod Examples
use rouge_v.Base.{
  ℕ, ◌+◌, ◌-◌, ◌*◌, ◌/◌, ◌%◌, ◌^◌, Bool, true, false, not, ◌&&◌, ◌||◌, bit_and, bit_or, ltb, leb,
  ◌==◌, if◌then◌else◌,
}
use rouge_v.Ptx.Half.{normalise}

pub record NarrowFpFormat : Type 0 where
  pub exp_bits : ℕ
  pub mant_bits : ℕ
  pub bias : ℕ
  pub max_bits : ℕ
  pub nan_bits : ℕ
  pub container_bits : ℕ
  pub field_shift : ℕ
  pub field_width : ℕ

abbrev pub e4m3 : NarrowFpFormat
e4m3 = record {
  exp_bits = 4;
  mant_bits = 3;
  bias = 7;
  max_bits = 0x7e;
  nan_bits = 0x7f;
  container_bits = 8;
  field_shift = 0;
  field_width = 8;
}

abbrev pub e5m2 : NarrowFpFormat
e5m2 = record {
  exp_bits = 5;
  mant_bits = 2;
  bias = 15;
  max_bits = 0x7b;
  nan_bits = 0x7f;
  container_bits = 8;
  field_shift = 0;
  field_width = 8;
}

abbrev pub e3m2 : NarrowFpFormat
e3m2 = record {
  exp_bits = 3;
  mant_bits = 2;
  bias = 3;
  max_bits = 0x1f;
  nan_bits = 0;
  container_bits = 8;
  field_shift = 0;
  field_width = 6;
}

abbrev pub e2m3 : NarrowFpFormat
e2m3 = record {
  exp_bits = 2;
  mant_bits = 3;
  bias = 1;
  max_bits = 0x1f;
  nan_bits = 0;
  container_bits = 8;
  field_shift = 0;
  field_width = 6;
}

abbrev pub e2m1 : NarrowFpFormat
e2m1 = record {
  exp_bits = 2;
  mant_bits = 1;
  bias = 1;
  max_bits = 0x07;
  nan_bits = 0;
  container_bits = 8;
  field_shift = 2;
  field_width = 4;
}

-- `(1u << n) - 1u`.
abbrev pub ones : ℕ → ℕ
ones n = 2 ^ n - 1

-- Whether the all-ones exponent holds normal numbers.
abbrev pub top_normal : NarrowFpFormat → Bool
top_normal f = bit_and (f.max_bits / 2 ^ f.mant_bits) (ones f.exp_bits) == ones f.exp_bits

abbrev pub normal_f32 : NarrowFpFormat → ℕ → ℕ → ℕ → ℕ
normal_f32 f fsign exp man =
    bit_or (bit_or fsign ((exp + 127 - f.bias) * 2 ^ 23)) (man * 2 ^ (23 - f.mant_bits))

pub narrow_to_f32 : ℕ → NarrowFpFormat → ℕ
unfolding normalise
narrow_to_f32 bits f =
    let sign = bit_and (bits / 2 ^ (f.field_width - 1)) 1 in
    let exp = bit_and (bits / 2 ^ f.mant_bits) (ones f.exp_bits) in
    let man = bit_and bits (ones f.mant_bits) in
    let fsign = sign * 2 ^ 31 in
    if exp == 0
    then (if man == 0
        then fsign
        else let (m, shift) = normalise (2 ^ f.mant_bits) f.mant_bits man 0 in
          bit_or (bit_or fsign ((128 - f.bias - shift) * 2 ^ 23))
            (bit_and m (ones f.mant_bits) * 2 ^ (23 - f.mant_bits)))
    else if exp == ones f.exp_bits
    then (if not (f.nan_bits == 0) && (man == ones f.mant_bits || not (top_normal f))
        then (if not (top_normal f) && man == 0
            then bit_or fsign 0x7f800000
            else bit_or fsign 0x7fc00000)
        else normal_f32 f fsign exp man)
    else normal_f32 f fsign exp man

-- `if (!roundToZero && (rem > half || (rem == half && (val & 1u)))) ++val;`
abbrev pub round_narrow : Bool → ℕ → ℕ → ℕ → ℕ
round_narrow to_zero val rem half =
    if not to_zero && (ltb half rem || (rem == half && bit_and val 1 == 1)) then val + 1 else val

abbrev pub with_sign : NarrowFpFormat → ℕ → ℕ → ℕ
with_sign f sign field = bit_or (sign * 2 ^ (f.field_width - 1)) field

-- The end of the subnormal branch: the rounded value is capped and signed.
pub narrow_cap : NarrowFpFormat → ℕ → ℕ → ℕ
narrow_cap f sign rounded =
    let cap = ones (f.exp_bits + f.mant_bits) in
    let val = if ltb cap rounded then cap else rounded in
    if not (f.nan_bits == 0) && val / 2 ^ f.mant_bits == ones f.exp_bits
    then with_sign f sign f.max_bits
    else with_sign f sign (bit_and val cap)

-- The end of the normal branch: a value carried into or past the all-ones exponent saturates.
pub narrow_saturate : NarrowFpFormat → ℕ → ℕ → ℕ
narrow_saturate f sign val =
    let got_exp = val / 2 ^ f.mant_bits in
    let all_mant = ones f.mant_bits in
    if ltb (ones f.exp_bits) got_exp
    then with_sign f sign f.max_bits
    else if got_exp == ones f.exp_bits
        && not (f.nan_bits == 0)
        && (not (top_normal f) || bit_and val all_mant == all_mant)
    then with_sign f sign f.max_bits
    else with_sign f sign (bit_and val (ones (f.exp_bits + f.mant_bits)))

-- A result below the normal range.
pub narrow_subnormal : NarrowFpFormat → Bool → ℕ → ℕ → ℕ → ℕ
narrow_subnormal f to_zero sign man t =
    let full = bit_or (2 ^ 23) man in
    let shift = 128 - t + (23 - f.mant_bits) in
    let rem = bit_and full (if leb 32 shift then 0xffffffff else ones shift) in
    narrow_cap f sign (round_narrow to_zero (full / 2 ^ shift) rem (2 ^ (shift - 1)))

-- A result in the normal range, or past it by rounding.
pub narrow_normal : NarrowFpFormat → Bool → ℕ → ℕ → ℕ → ℕ
narrow_normal f to_zero sign man t =
    let drop_bits = 23 - f.mant_bits in
    let kept = bit_or ((t - 127) * 2 ^ f.mant_bits) (man / 2 ^ drop_bits) in
    let rem = bit_and man (ones drop_bits) in
    narrow_saturate f sign (round_narrow to_zero kept rem (2 ^ (drop_bits - 1)))

pub f32_to_narrow : ℕ → NarrowFpFormat → Bool → Bool → ℕ
f32_to_narrow x f to_zero nan_to_max =
    let sign = bit_and (x / 2 ^ 31) 1 in
    let e = bit_and (x / 2 ^ 23) 0xff in
    let man = bit_and x 0x7fffff in
    let t = e + f.bias in
    if e == 0xff && not (man == 0)
    then (if nan_to_max then f.max_bits else with_sign f sign f.nan_bits)
    else if e == 0xff
    then with_sign f sign f.max_bits
    else if e == 0 && man == 0
    then sign * 2 ^ (f.field_width - 1)
    else if ltb (ones f.exp_bits + 127) t
    then with_sign f sign f.max_bits
    else if leb t 127
    then (if ltb (t + f.mant_bits) 127 then 0 else narrow_subnormal f to_zero sign man t)
    else narrow_normal f to_zero sign man t

abbrev pub field_mask : NarrowFpFormat → ℕ
field_mask f = if f.field_width == 32 then 0xffffffff else ones f.field_width

pub narrow_pack : ℕ → NarrowFpFormat → ℕ
narrow_pack field f = bit_and field (field_mask f) * 2 ^ f.field_shift

pub narrow_unpack : ℕ → NarrowFpFormat → ℕ
narrow_unpack container f = bit_and (container / 2 ^ f.field_shift) (field_mask f)
