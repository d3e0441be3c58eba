-- ===== src/Ptx/Narrow/Saturation.antt =====
-- Encoding never leaves the finite range.
use rouge_v.Base.{
  ℕ, ◌+◌, ◌-◌, ◌*◌, ◌/◌, ◌%◌, ◌^◌, ◌<◌, ◌≤◌, ◌≡◌, ◌≢◌, ◌⊎◌, arith, Bool, true, bit_and,
}
use rouge_v.Base.Bits.{bit_and-mask, bit_or-fields, bit_and-one}
use rouge_v.Ptx.Narrow.RoundTrip.{Kind, k4m3, format}
use rouge_v.Ptx.Narrow.{
  NarrowFpFormat, f32_to_narrow, narrow_subnormal, narrow_normal, narrow_cap, narrow_saturate,
  with_sign,
}

-- A field of the format whose magnitude is at most the greatest finite one.
abbrev pub IsFinite : NarrowFpFormat → ℕ → Type 0
IsFinite f r = (r < 2 ^ f.field_width) × (r % 2 ^ (f.field_width - 1) ≤ f.max_bits)

with_sign-IsFinite :
    (k : Kind) (sign v : ℕ)
    → sign < 2
    → v ≤ (format k).max_bits
    → IsFinite (format k) (with_sign (format k) sign v)
with_sign-IsFinite k4m3 sign v s h = omega (arith, bit_or-fields 7 sign v (omega arith))
with_sign-IsFinite k sign v s h =
    omega (arith, bit_or-fields ((format k).field_width - 1) sign v (omega arith))

-- The facts that both ends of the encoding rest on, at a format.
max_fits :
    (k : Kind) (sign : ℕ)
    → sign < 2
    → IsFinite (format k) (with_sign (format k) sign (format k).max_bits)
max_fits k4m3 sign s = with_sign-IsFinite k4m3 sign _ s (omega arith)
max_fits k sign s = with_sign-IsFinite k sign _ s (omega arith)

narrow_saturate-IsFinite :
    (k : Kind) (sign val : ℕ) → sign < 2 → IsFinite (format k) (narrow_saturate (format k) sign val)
unfolding narrow_saturate
narrow_saturate-IsFinite k4m3 sign val s = ground (
  arith,
  max_fits k4m3 sign s,
  with_sign-IsFinite k4m3 sign (bit_and val 127) s,
  bit_and-mask 7 val,
  bit_and-mask 3 val,
)
narrow_saturate-IsFinite k sign val s =
    let mask = (format k).exp_bits + (format k).mant_bits in
    ground (
      arith,
      max_fits k sign s,
      with_sign-IsFinite k sign (bit_and val (2 ^ mask - 1)) s,
      bit_and-mask mask val,
      bit_and-mask (format k).mant_bits val,
    )

narrow_cap-IsFinite :
    (k : Kind) (sign rounded : ℕ)
    → sign < 2
    → IsFinite (format k) (narrow_cap (format k) sign rounded)
unfolding narrow_cap
narrow_cap-IsFinite k4m3 sign rounded s = ground (
  arith,
  max_fits k4m3 sign s,
  with_sign-IsFinite k4m3 sign (bit_and rounded 127) s,
  with_sign-IsFinite k4m3 sign (bit_and 127 127) s,
  bit_and-mask 7 rounded,
)
narrow_cap-IsFinite k sign rounded s =
    let mask = (format k).exp_bits + (format k).mant_bits in
    ground (
      arith,
      max_fits k sign s,
      with_sign-IsFinite k sign (bit_and rounded (2 ^ mask - 1)) s,
      with_sign-IsFinite k sign (bit_and (2 ^ mask - 1) (2 ^ mask - 1)) s,
      bit_and-mask mask rounded,
    )

zero-IsFinite :
    (k : Kind) (sign : ℕ)
    → sign < 2
    → IsFinite (format k) (sign * 2 ^ ((format k).field_width - 1)) × IsFinite (format k) 0
zero-IsFinite k4m3 sign s = omega arith
zero-IsFinite k sign s = omega arith

narrow_subnormal-IsFinite :
    (k : Kind) (to_zero : Bool) (sign man t : ℕ)
    → sign < 2
    → IsFinite (format k) (narrow_subnormal (format k) to_zero sign man t)
unfolding narrow_subnormal
narrow_subnormal-IsFinite k to_zero sign man t s = narrow_cap-IsFinite k sign _ s

narrow_normal-IsFinite :
    (k : Kind) (to_zero : Bool) (sign man t : ℕ)
    → sign < 2
    → IsFinite (format k) (narrow_normal (format k) to_zero sign man t)
unfolding narrow_normal
narrow_normal-IsFinite k to_zero sign man t s = narrow_saturate-IsFinite k sign _ s

positive-max : (k : Kind) → IsFinite (format k) (format k).max_bits
positive-max k4m3 = omega arith
positive-max k = omega arith

-- No finite or infinite input gives an infinity or a NaN, under either rounding: the magnitude of
-- the result is at most the greatest finite number of the format. Where NaN goes to the greatest
-- number, this holds of every pattern.
pub f32_to_narrow-IsFinite :
    (k : Kind) (to_zero nan_to_max : Bool) (x : ℕ)
    → (bit_and (x / 2 ^ 23) 0xff ≢ 0xff) ⊎ ((bit_and x 0x7fffff ≡ 0) ⊎ (nan_to_max ≡ true))
    → IsFinite (format k) (f32_to_narrow x (format k) to_zero nan_to_max)
unfolding f32_to_narrow
f32_to_narrow-IsFinite k to_zero nan_to_max x h =
    let sign = bit_and (x / 2 ^ 31) 1 in
    let man = bit_and x 0x7fffff in
    let t = bit_and (x / 2 ^ 23) 0xff + (format k).bias in
    let s : bit_and (x / 2 ^ 31) 1 < 2 = omega (arith, bit_and-one (x / 2 ^ 31)) in
    ground (
      arith,
      h,
      max_fits k sign s,
      positive-max k,
      zero-IsFinite k sign s,
      narrow_subnormal-IsFinite k to_zero sign man t s,
      narrow_normal-IsFinite k to_zero sign man t s,
    )
