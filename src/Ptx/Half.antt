-- ===== src/Ptx/Half.antt =====
-- software/rouge-ptx/ptx.cpp: binary16 and bfloat16. A `float` is its binary32 pattern, since the
-- code only moves bits.
pub mod RoundTrip
pub mod Nearest
pub mod Monotone
mod Examples
use rouge_v.Base.{
  ℕ, zero, suc, ◌+◌, ◌-◌, ◌*◌, ◌/◌, ◌%◌, ◌^◌, Bool, true, false, ◌&&◌, ◌||◌, bit_and, bit_or, ltb,
  leb, ◌==◌, if◌then◌else◌,
}

abbrev pub u16 : ℕ → ℕ
u16 v = v % 2 ^ 16

-- `while ((m & top) == 0) { m <<= 1; ++shift; }`, on fuel: a set bit is at most as many places
-- below `top` as `top` has zeros.
unfoldable pub normalise : ℕ → ℕ → ℕ → ℕ → ℕ × ℕ
normalise top zero m shift = (m, shift)
normalise top (suc fuel) m shift =
    let rest = normalise top fuel (m * 2) (shift + 1) in
    if bit_and m top == 0 then rest else (m, shift)

pub f16_to_f32 : ℕ → ℕ
unfolding normalise
f16_to_f32 h =
    let sign = bit_and h 0x8000 * 2 ^ 16 in
    let exp = bit_and (h / 2 ^ 10) 0x1f in
    let man = bit_and h 0x3ff in
    if exp == 0
    then (if man == 0
        then sign
        else let (m, shift) = normalise 0x400 10 man 0 in
          bit_or (bit_or sign ((113 - shift) * 2 ^ 23)) (bit_and m 0x3ff * 2 ^ 13))
    else if exp == 0x1f
    then bit_or (bit_or sign 0x7f800000) (man * 2 ^ 13)
    else bit_or (bit_or sign ((exp + 127 - 15) * 2 ^ 23)) (man * 2 ^ 13)

-- `if (rem > half || (rem == half && (val & 1u))) ++val;`
abbrev pub round_even : ℕ → ℕ → ℕ → ℕ
round_even val rem half =
    if ltb half rem || (rem == half && bit_and val 1 == 1) then val + 1 else val

-- The branch of a result below the normal range: `exp` here is `14 - shift`.
pub f16_subnormal : ℕ → ℕ → ℕ → ℕ
f16_subnormal sign man shift =
    let m = bit_or man 0x800000 in
    let rem = bit_and m (2 ^ shift - 1) in
    u16 (bit_or sign (round_even (m / 2 ^ shift) rem (2 ^ (shift - 1))))

pub f16_normal : ℕ → ℕ → ℕ → ℕ
f16_normal sign man exp =
    let val = bit_or (exp * 2 ^ 10) (man / 2 ^ 13) in
    u16 (bit_or sign (round_even val (bit_and man 0x1fff) 0x1000))

-- `exp` of the source is `e - 112`; the tests on it are written on `e`.
pub f32_to_f16_rne : ℕ → ℕ
f32_to_f16_rne x =
    let sign = bit_and (x / 2 ^ 16) 0x8000 in
    let e = bit_and (x / 2 ^ 23) 0xff in
    let man = bit_and x 0x7fffff in
    if e == 0xff
    then (if man == 0 then u16 (bit_or sign 0x7c00) else u16 (bit_or sign 0x7e00))
    else if leb (0x1f + 112) e
    then u16 (bit_or sign 0x7c00)
    else if leb e 112
    then (if ltb e 102 then sign else f16_subnormal sign man (126 - e))
    else f16_normal sign man (e - 112)

pub bf16_to_f32 : ℕ → ℕ
bf16_to_f32 b = b * 2 ^ 16

pub f32_to_bf16_rne : ℕ → ℕ
f32_to_bf16_rne x =
    if bit_and (x / 2 ^ 23) 0xff == 0xff
    then bit_and (x / 2 ^ 16) 0xffff
    else let lsb = bit_and (x / 2 ^ 16) 1 in u16 ((x + 0x7fff + lsb) % 2 ^ 32 / 2 ^ 16)
