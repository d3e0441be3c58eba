-- ===== src/Ptx/Alu/Multiply.antt =====
-- The halves of a product.
use rouge_v.Base.{ℕ, suc, ◌+◌, ◌-◌, ◌*◌, ◌/◌, ◌%◌, ◌^◌, ◌≤◌, ◌<◌, ◌≡◌, refl, arith, some}
use rouge_v.Base.Arith.{mul_mono, mul_mono_left}
use rouge_v.Base.Int.{ℤ, pos, negsuc, magnitude, ◌*ℤ◌, signed, pattern_of, floor_shift}
use rouge_v.Ptx.Words.{width_mask, sar64}
use rouge_v.Ptx.Words.Shifts.{width_mask_lem, sar64-floor_shift, sar64_fits}
use rouge_v.Ptx.Alu.{u32, s32, lo, hi, multiply}

bounded : (a b : ℕ) → a ≤ 2 ^ 31 → b ≤ 2 ^ 31 → a * b ≤ 2 ^ 62
bounded a b ha hb = omega (arith, mul_mono a b (2 ^ 31) hb, mul_mono_left a (2 ^ 31) (2 ^ 31) ha)

product_bounded :
    (x y : ℤ) → magnitude x ≤ 2 ^ 31 → magnitude y ≤ 2 ^ 31 → magnitude (x *ℤ y) ≤ 2 ^ 62
unfolding ◌*ℤ◌
product_bounded (pos a) (pos b) hx hy = ground (arith, bounded a b)
product_bounded (pos a) (negsuc b) hx hy = ground (arith, bounded a (suc b))
product_bounded (negsuc a) (pos b) hx hy = ground (arith, bounded (suc a) b)
product_bounded (negsuc a) (negsuc b) hx hy = ground (arith, bounded (suc a) (suc b))

high_word :
    (z : ℤ)
    → magnitude z ≤ 2 ^ 62
    → signed 32 (width_mask (sar64 (pattern_of 64 z) 32) 32) ≡ floor_shift 32 z
high_word (pos n) h = ground (
  arith,
  sar64-floor_shift n 32 (omega arith),
  sar64_fits n 32 (omega arith),
  width_mask_lem (sar64 n 32) 32 (omega arith),
)
high_word (negsuc n) h =
    let p = 2 ^ 64 - suc n in
    ground (
      arith,
      sar64-floor_shift p 32 (omega arith),
      sar64_fits p 32 (omega arith),
      width_mask_lem (sar64 p 32) 32 (omega arith),
    )

signed_bounded : (v : ℕ) → v < 2 ^ 32 → magnitude (signed 32 v) ≤ 2 ^ 31
signed_bounded v h = ground arith

-- `mul.hi.s32` and `mad.hi.s32` give the upper word of the signed product.
pub mul_hi_s32-floor_shift :
    (a b addend : ℕ)
    → (r : ℕ) × (multiply hi s32 a b addend ≡ some r)
      × (signed 32 r ≡ floor_shift 32 (signed 32 (a % 2 ^ 32) *ℤ signed 32 (b % 2 ^ 32)))
unfolding multiply
mul_hi_s32-floor_shift a b addend =
    let x = signed 32 (a % 2 ^ 32) in
    let y = signed 32 (b % 2 ^ 32) in
    let small =
      product_bounded x y (signed_bounded (a % 2 ^ 32) (omega arith))
        (signed_bounded (b % 2 ^ 32) (omega arith)) in
    (_, refl, high_word (x *ℤ y) small)

-- The words of `mul.hi.u32` and `mul.lo.u32` are together the whole product of the operands, and
-- the lower one is a word.
pub mul_hi_lo_u32 :
    (a b : ℕ)
    → (h l : ℕ) × (multiply hi u32 a b 0 ≡ some h)
      × (multiply lo u32 a b 0 ≡ some l)
      × (h * 2 ^ 32 + l ≡ a % 2 ^ 32 * (b % 2 ^ 32))
      × (l < 2 ^ 32)
unfolding multiply
mul_hi_lo_u32 a b =
    let prod = a % 2 ^ 32 * (b % 2 ^ 32) in
    let le = mul_mono (a % 2 ^ 32) (b % 2 ^ 32) (2 ^ 32 - 1) (omega arith) in
    let small : prod < 2 ^ 64 = omega arith in
    let high = width_mask_lem (prod / 2 ^ 32) 32 (omega arith) in
    let low = width_mask_lem ((prod + 0) % 2 ^ 64) 32 (omega arith) in
    (_, _, refl, refl, omega (arith, high, low), omega (arith, low))
