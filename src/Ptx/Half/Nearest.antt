-- ===== src/Ptx/Half/Nearest.antt =====
-- The conversions from binary32 round to nearest, ties to even.
use native.Mathlib.Nat.{pow-le-pow_right, mod-eq_of_lt}
use rouge_v.Base.{
  ℕ, suc, ◌+◌, ◌-◌, ◌*◌, ◌/◌, ◌%◌, ◌^◌, ◌≤◌, ◌<◌, ◌≡◌, ◌⊎◌, inl, inr, arith, bit_and, bit_or,
}
use rouge_v.Base.Arith.{div_antitone}
use rouge_v.Base.Bits.{
  bit_and-shifted, zero-bit_or, bit_or-fields_right, bit_and-mask, bit_and-one, bit_or-fields,
}
use rouge_v.Ptx.Half.{round_even, f32_to_f16_rne, f32_to_bf16_rne, f16_normal, f16_subnormal}

-- `r` units of `2 * half` are nearest to `v`, and `r` is even where two are as near.
abbrev pub NearestEven : ℕ → ℕ → ℕ → Type 0
NearestEven half v r =
    ((v < r * (2 * half) + half) × (r * (2 * half) < v + half))
    ⊎ (((v ≡ r * (2 * half) + half) ⊎ (r * (2 * half) ≡ v + half)) × (r % 2 ≡ 0))

round_even_cases :
    (val rem half : ℕ)
    → (((half < rem) ⊎ ((rem ≡ half) × (val % 2 ≡ 1))) × (round_even val rem half ≡ val + 1))
      ⊎ (((rem < half) ⊎ ((rem ≡ half) × (val % 2 ≡ 0))) × (round_even val rem half ≡ val))
round_even_cases val rem half = ground (arith, bit_and-one val)

pub round_even-NearestEven :
    (half v val rem : ℕ)
    → v ≡ val * (2 * half) + rem
    → rem < 2 * half
    → NearestEven half v (round_even val rem half)
round_even-NearestEven half v val rem e small = elim (round_even_cases val rem half) [
  | inl (inl up, e') ↦ rw e' (inl (omega arith))
  | inl (inr (tie, odd), e') ↦ rw e' (inr (inr (omega arith), omega arith))
  | inr (inl down, e') ↦ rw e' (inl (omega arith))
  | inr (inr (tie, even), e') ↦ rw e' (inr (inl (omega arith), omega arith))
]

-- `f32_to_bf16_rne` of any finite pattern.
pub f32_to_bf16_rne-NearestEven :
    (x : ℕ) → x < 0x7f800000 → NearestEven 0x8000 x (f32_to_bf16_rne x)
unfolding f32_to_bf16_rne
f32_to_bf16_rne-NearestEven x h =
    ground (arith, bit_and-mask 8 (x / 2 ^ 23), bit_and-one (x / 2 ^ 16))

round_even-le : (val rem half : ℕ) → round_even val rem half ≤ val + 1
round_even-le val rem half = ground arith

pub f16_normal_lem :
    (man exp : ℕ)
    → man < 2 ^ 23
    → exp < 31
    → f16_normal 0 man exp ≡ round_even (exp * 2 ^ 10 + man / 2 ^ 13) (man % 2 ^ 13) (2 ^ 12)
unfolding f16_normal
f16_normal_lem man exp h small =
    let val = exp * 2 ^ 10 + man / 2 ^ 13 in
    let room : round_even val (man % 2 ^ 13) (2 ^ 12) < 2 ^ 16 =
      omega (arith, round_even-le val (man % 2 ^ 13) (2 ^ 12)) in
    rw (bit_or-fields 10 exp (man / 2 ^ 13) (omega arith), bit_and-mask 13 man, zero-bit_or)
      (mod-eq_of_lt room)

pub f16_subnormal_lem :
    (man s : ℕ)
    → man < 2 ^ 23
    → 13 ≤ s
    → f16_subnormal 0 man (suc s)
      ≡ round_even ((man + 2 ^ 23) / 2 ^ suc s) ((man + 2 ^ 23) % 2 ^ suc s) (2 ^ s)
unfolding f16_subnormal
f16_subnormal_lem man s h low =
    let m = man + 2 ^ 23 in
    let unit : 2 ^ 14 ≤ 2 ^ suc s =
      pow-le-pow_right (omega arith) {i = 14} {j = suc s} (omega arith) in
    let small : m / 2 ^ suc s ≤ m / 2 ^ 14 =
      div_antitone m (2 ^ 14) (2 ^ suc s) (omega arith) unit in
    let room : round_even (m / 2 ^ suc s) (m % 2 ^ suc s) (2 ^ s) < 2 ^ 16 =
      omega (arith, round_even-le (m / 2 ^ suc s) (m % 2 ^ suc s) (2 ^ s)) in
    let e : bit_or man 0x800000 ≡ m = omega (arith, bit_or-fields_right 23 1 man h) in
    let e' : suc s - 1 ≡ s = omega arith in
    rw (e, e', bit_and-mask (suc s) m, zero-bit_or) (mod-eq_of_lt room)

module _ (x : ℕ) where
  -- The fields of a pattern with a clear sign bit.
  positive_fields :
      x < 2 ^ 31
      → (bit_and (x / 2 ^ 16) 0x8000 ≡ 0)
        × (bit_and (x / 2 ^ 23) 0xff ≡ x / 2 ^ 23)
        × (bit_and x 0x7fffff ≡ x % 2 ^ 23)
  positive_fields h = (
    omega (arith, bit_and-shifted 15 (x / 2 ^ 16) 1, bit_and-one (x / 2 ^ 16 / 2 ^ 15)),
    omega (arith, bit_and-mask 8 (x / 2 ^ 23)),
    bit_and-mask 23 x,
  )

  -- The four finite ranges of `f32_to_f16_rne` on such a pattern.
  pub f16_underflow : x < 102 * 2 ^ 23 → f32_to_f16_rne x ≡ 0
  unfolding f32_to_f16_rne
  f16_underflow h = let (s, e, m) = positive_fields (omega arith) in rw (s, e, m) (ground arith)

  pub f16_below_normal :
      102 * 2 ^ 23 ≤ x
      → x < 113 * 2 ^ 23
      → f32_to_f16_rne x ≡ f16_subnormal 0 (x % 2 ^ 23) (suc (125 - x / 2 ^ 23))
  unfolding f32_to_f16_rne
  f16_below_normal low high =
      let (s, e, m) = positive_fields (omega arith) in
      let shift : 126 - x / 2 ^ 23 ≡ suc (125 - x / 2 ^ 23) = omega arith in
      rw (s, e, m) (ground arith)

  pub f16_in_range :
      113 * 2 ^ 23 ≤ x
      → x < 143 * 2 ^ 23
      → f32_to_f16_rne x ≡ f16_normal 0 (x % 2 ^ 23) (x / 2 ^ 23 - 112)
  unfolding f32_to_f16_rne
  f16_in_range low high =
      let (s, e, m) = positive_fields (omega arith) in rw (s, e, m) (ground arith)

  pub f16_overflow : 143 * 2 ^ 23 ≤ x → x ≤ 0x7f800000 → f32_to_f16_rne x ≡ 0x7c00
  unfolding f32_to_f16_rne
  f16_overflow low high =
      let (s, e, m) = positive_fields (omega arith) in rw (s, e, m) (ground arith)
