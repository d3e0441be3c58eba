-- ===== src/Ptx/Alu/Divide.antt =====
-- Quotient and remainder.
use native.Mathlib.Nat.{div-add-mod', mod-lt, div-le_self, mul_comm, mod-le, mod-eq_of_lt}
use rouge_v.Base.Arith.{mul_mono_left}
use rouge_v.Base.{
  ℕ, zero, suc, ◌+◌, ◌-◌, ◌*◌, ◌/◌, ◌%◌, ◌^◌, ◌≤◌, ◌<◌, ◌≡◌, ◌≢◌, Bool, true, false, ◌==◌, ◌&&◌,
  if◌then◌else◌, refl, arith, some, ◌⊎◌, ap, ◌∙◌,
}
use rouge_v.Base.Int.{
  ℤ, pos, negsuc, pos_part, neg_part, magnitude, ◌*ℤ◌, ◌+ℤ◌, signed, pattern_of, truncated_div,
  truncated_rem,
}
use rouge_v.Ptx.Words.{width_mask}
use rouge_v.Ptx.Words.Shifts.{width_mask_lem, width_mask_whole}
use rouge_v.Ptx.Alu.{
  u32, s32, u64, s64, DivOp, div_op, rem_op, divide, divide_bits, divide_signed, divide_unsigned,
}

-- The quotient and the remainder of C determine the dividend.
truncated_identity :
    (x y : ℤ)
    → 0 < magnitude y
    → (truncated_div x y *ℤ y +ℤ truncated_rem x y ≡ x)
      × (magnitude (truncated_rem x y) < magnitude y)
unfolding ◌*ℤ◌ ◌+ℤ◌
truncated_identity (pos a) (pos b) h = ground (arith, div-add-mod' a b, mod-lt a h)
truncated_identity (pos a) (negsuc b) h = ground (arith, div-add-mod' a (suc b), mod-lt a h)
truncated_identity (negsuc a) (pos b) h = ground (arith, div-add-mod' (suc a) b, mod-lt (suc a) h)
truncated_identity (negsuc a) (negsuc b) h =
    ground (arith, div-add-mod' (suc a) (suc b), mod-lt (suc a) h)

-- A number of `w` bits, where `half` is `2 ^ (w - 1)`.
abbrev InRange : ℕ → ℤ → Type 0
InRange half z = (pos_part z < half) × (neg_part z ≤ half)

-- The one quotient out of range is that of the least number by -1.
quotient_InRange :
    (half : ℕ) (x y : ℤ)
    → InRange half x
    → 0 < magnitude y
    → (neg_part x ≢ half) ⊎ (neg_part y ≢ 1)
    → InRange half (truncated_div x y)
quotient_InRange half (pos a) (pos b) r h apart = ground (arith, div-le_self a b)
quotient_InRange half (pos a) (negsuc b) r h apart = ground (arith, div-le_self a (suc b))
quotient_InRange half (negsuc a) (pos b) r h apart = ground (arith, div-le_self (suc a) b)
quotient_InRange half (negsuc a) (negsuc zero) r h apart = ground (arith, div-le_self (suc a) 1)
quotient_InRange half (negsuc a) (negsuc (suc b)) r h apart =
    let q = suc a / suc (suc b) in
    let twice : 2 * q ≤ suc (suc b) * q = mul_mono_left 2 (suc (suc b)) q (omega arith) in
    let whole = div-add-mod' (suc a) (suc (suc b)) in
    let turn = mul_comm (suc (suc b)) q in let low : 2 * q ≤ suc a = omega arith in ground arith

remainder_InRange : (half : ℕ) (x y : ℤ) → InRange half x → InRange half (truncated_rem x y)
remainder_InRange half (pos a) y r = ground (arith, mod-le a (magnitude y))
remainder_InRange half (negsuc a) y r = ground (arith, mod-le (suc a) (magnitude y))

pattern32 : (z : ℤ) → InRange (2 ^ 31) z → signed 32 (width_mask (pattern_of 32 z) 32) ≡ z
pattern32 (pos n) r = ground (arith, width_mask_lem n 32 (omega arith))
pattern32 (negsuc n) r = ground (arith, width_mask_lem (2 ^ 32 - suc n) 32 (omega arith))

pattern64 : (z : ℤ) → InRange (2 ^ 63) z → signed 64 (width_mask (pattern_of 64 z) 64) ≡ z
pattern64 (pos n) r = ground (arith, width_mask_whole n)
pattern64 (negsuc n) r = ground (arith, width_mask_whole (2 ^ 64 - suc n))

nonzero_signed :
    (w : ℕ) (op : DivOp) (a b : ℕ)
    → b % 2 ^ w ≢ 0
    → (a % 2 ^ w ≢ 2 ^ (w - 1)) ⊎ (b % 2 ^ w ≢ 2 ^ w - 1)
    → divide_bits w op true a b
      ≡ pattern_of w (divide_signed op (signed w (a % 2 ^ w)) (signed w (b % 2 ^ w)))
nonzero_signed w op a b nonzero apart =
    let x = a % 2 ^ w in
    let y = b % 2 ^ w in
    let no_zero : (y == 0) ≡ false = ground arith in
    let no_wrap : (x == 2 ^ (w - 1) && y == 2 ^ w - 1) ≡ false = ground arith in
    rw (no_zero, no_wrap) refl

-- `div.s32` and `rem.s32` by a divisor that is not 0, but for the least number by -1: the quotient
-- and the remainder give the dividend back, and the remainder is the smaller in magnitude.
pub divide_s32 :
    (a b : ℕ)
    → b % 2 ^ 32 ≢ 0
    → (a % 2 ^ 32 ≢ 2 ^ 31) ⊎ (b % 2 ^ 32 ≢ 2 ^ 32 - 1)
    → (q r : ℕ) × (divide div_op s32 a b ≡ some q)
      × (divide rem_op s32 a b ≡ some r)
      × (signed 32 q *ℤ signed 32 (b % 2 ^ 32) +ℤ signed 32 r ≡ signed 32 (a % 2 ^ 32))
      × (magnitude (signed 32 r) < magnitude (signed 32 (b % 2 ^ 32)))
unfolding divide
divide_s32 a b nonzero apart =
    let x = signed 32 (a % 2 ^ 32) in
    let y = signed 32 (b % 2 ^ 32) in
    let range : InRange (2 ^ 31) x = ground arith in
    let positive : 0 < magnitude y = ground arith in
    let exact = truncated_identity x y positive in
    let in_range = quotient_InRange (2 ^ 31) x y range positive (ground arith) in
    let q = pattern32 (truncated_div x y) in_range in
    let r = pattern32 (truncated_rem x y) (remainder_InRange (2 ^ 31) x y range) in
    let q_bits = nonzero_signed 32 div_op a b nonzero apart in
    let r_bits = nonzero_signed 32 rem_op a b nonzero apart in
    (
      width_mask (pattern_of 32 (truncated_div x y)) 32,
      width_mask (pattern_of 32 (truncated_rem x y)) 32,
      ap (λ v. some (width_mask v 32)) q_bits,
      ap (λ v. some (width_mask v 32)) r_bits,
      rw (q, r) exact.0,
      rw r exact.1,
    )

-- The same of `div.s64` and `rem.s64`.
divide_s64 :
    (a b : ℕ)
    → b % 2 ^ 64 ≢ 0
    → (a % 2 ^ 64 ≢ 2 ^ 63) ⊎ (b % 2 ^ 64 ≢ 2 ^ 64 - 1)
    → (q r : ℕ) × (divide div_op s64 a b ≡ some q)
      × (divide rem_op s64 a b ≡ some r)
      × (signed 64 q *ℤ signed 64 (b % 2 ^ 64) +ℤ signed 64 r ≡ signed 64 (a % 2 ^ 64))
      × (magnitude (signed 64 r) < magnitude (signed 64 (b % 2 ^ 64)))
unfolding divide
divide_s64 a b nonzero apart =
    let x = signed 64 (a % 2 ^ 64) in
    let y = signed 64 (b % 2 ^ 64) in
    let range : InRange (2 ^ 63) x = ground arith in
    let positive : 0 < magnitude y = ground arith in
    let exact = truncated_identity x y positive in
    let in_range = quotient_InRange (2 ^ 63) x y range positive (ground arith) in
    let q = pattern64 (truncated_div x y) in_range in
    let r = pattern64 (truncated_rem x y) (remainder_InRange (2 ^ 63) x y range) in
    let q_bits = nonzero_signed 64 div_op a b nonzero apart in
    let r_bits = nonzero_signed 64 rem_op a b nonzero apart in
    (
      width_mask (pattern_of 64 (truncated_div x y)) 64,
      width_mask (pattern_of 64 (truncated_rem x y)) 64,
      ap (λ v. some (width_mask v 64)) q_bits,
      ap (λ v. some (width_mask v 64)) r_bits,
      rw (q, r) exact.0,
      rw r exact.1,
    )

nonzero_unsigned :
    (w : ℕ) (op : DivOp) (a b : ℕ)
    → b % 2 ^ w ≢ 0
    → divide_bits w op false a b ≡ divide_unsigned op (a % 2 ^ w) (b % 2 ^ w)
nonzero_unsigned w op a b nonzero =
    let no_zero : (b % 2 ^ w == 0) ≡ false = ground arith in rw no_zero refl

-- Unsigned division by a divisor that is not 0, on both widths.
divide_unsigned_lem :
    (wide : Bool) (a b : ℕ)
    → b % 2 ^ (if wide then 64 else 32) ≢ 0
    → (q r : ℕ) × (divide div_op (if wide then u64 else u32) a b ≡ some q)
      × (divide rem_op (if wide then u64 else u32) a b ≡ some r)
      × (q * (b % 2 ^ (if wide then 64 else 32)) + r ≡ a % 2 ^ (if wide then 64 else 32))
      × (r < b % 2 ^ (if wide then 64 else 32))
unfolding divide
divide_unsigned_lem true a b nonzero =
    let x = a % 2 ^ 64 in
    let y = b % 2 ^ 64 in
    let q =
      ap (λ v. width_mask v 64) (nonzero_unsigned 64 div_op a b nonzero)
      ∙ width_mask_whole (x / y) in
    let r =
      ap (λ v. width_mask v 64) (nonzero_unsigned 64 rem_op a b nonzero)
      ∙ width_mask_whole (x % y) in
    (x / y, x % y, ap some q, ap some r, div-add-mod' x y, mod-lt x (omega arith))
divide_unsigned_lem false a b nonzero =
    let x = a % 2 ^ 32 in
    let y = b % 2 ^ 32 in
    let q_fits : x / y % 2 ^ 32 ≡ x / y = mod-eq_of_lt (omega (arith, div-le_self x y)) in
    let r_fits : x % y % 2 ^ 32 ≡ x % y = mod-eq_of_lt (omega (arith, mod-le x y)) in
    let q =
      ap (λ v. width_mask v 32) (nonzero_unsigned 32 div_op a b nonzero)
      ∙ width_mask_lem (x / y) 32 (omega arith)
      ∙ q_fits in
    let r =
      ap (λ v. width_mask v 32) (nonzero_unsigned 32 rem_op a b nonzero)
      ∙ width_mask_lem (x % y) 32 (omega arith)
      ∙ r_fits in
    (x / y, x % y, ap some q, ap some r, div-add-mod' x y, mod-lt x (omega arith))
