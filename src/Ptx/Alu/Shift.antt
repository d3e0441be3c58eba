-- ===== src/Ptx/Alu/Shift.antt =====
-- The shifts at every amount, those past the width of the type included.
use native.Mathlib.Nat.{
  pow-le-pow_right, div-eq_of_lt, le_trans, mod-eq_of_lt, mul-mod_left, mul_assoc,
}
use rouge_v.Base.{ap, sym, ◌∙◌}
use rouge_v.Base.{Bool-cases, inl, inr}
use rouge_v.Base.Bits.{two_pow_add}
use rouge_v.Base.{ℕ, ◌-◌, ◌*◌, ◌/◌, ◌%◌, ◌^◌, ◌≤◌, ◌<◌, ◌≡◌, leb, if◌then◌else◌, arith}
use rouge_v.Base.Int.{signed, floor_shift}
use rouge_v.Ptx.Words.{width_mask, sar32, sar64}
use rouge_v.Ptx.Words.Shifts.{
  width_mask_lem, width_mask_whole, sar32_fits, sar32_clear, sar32-floor_shift, sar64-floor_shift,
}
use rouge_v.Ptx.Alu.{
  IntType, b16, u16, s16, b32, u32, s32, b64, u64, s64, int_type_bits, shl_op, shr_op, logic,
  shl_within, shr_within, shr_clamped,
}

-- Every shift of a number below the unit is 0.
div_past : (v w sh : ℕ) → v < 2 ^ w → w ≤ sh → v / 2 ^ sh ≡ 0
div_past v w sh small past = div-eq_of_lt (le_trans small (pow-le-pow_right (omega arith) past))

clamped32 :
    (x sh : ℕ)
    → x < 2 ^ 32
    → 32 ≤ sh
    → signed 32 (if leb (2 ^ 31) x then 0xffffffff else 0) ≡ floor_shift sh (signed 32 x)
clamped32 x sh small past =
    ground (arith, div_past x 32 sh small past, div_past (2 ^ 32 - x - 1) 32 sh (omega arith) past)

clamped_fits : (x : ℕ) → (if leb (2 ^ 31) x then 0xffffffff else 0) < 2 ^ 32
clamped_fits x = ground arith

clamped64 :
    (x sh : ℕ)
    → x < 2 ^ 64
    → 64 ≤ sh
    → signed 64 (if leb (2 ^ 63) x then 2 ^ 64 - 1 else 0) ≡ floor_shift sh (signed 64 x)
clamped64 x sh small past =
    ground (arith, div_past x 64 sh small past, div_past (2 ^ 64 - x - 1) 64 sh (omega arith) past)

-- `shr.s32` divides by a power of two towards minus infinity, at every amount.
pub shr_s32-floor_shift :
    (a b : ℕ) → signed 32 (logic shr_op s32 a b) ≡ floor_shift (b % 2 ^ 32) (signed 32 (a % 2 ^ 32))
unfolding logic shr_within shr_clamped
shr_s32-floor_shift a b =
    let x = a % 2 ^ 32 in
    let sh = b % 2 ^ 32 in
    let small : x < 2 ^ 32 = omega arith in
    elim (Bool-cases (leb 32 sh)) [
      | inl past ↦
          let low = clamped_fits x in
          rw
            (
              past,
              width_mask_lem (if leb (2 ^ 31) x then 0xffffffff else 0) 32 (omega arith),
              mod-eq_of_lt low,
            )
            (clamped32 x sh small (ground arith))
      | inr within ↦
          rw
            (
              within,
              width_mask_lem (sar32 x sh) 32 (omega arith),
              mod-eq_of_lt (sar32_fits x sh small),
            )
            (sar32-floor_shift x sh small)
    ]

-- `shr.s64` divides by a power of two towards minus infinity, at every amount.
shr_s64-floor_shift :
    (a b : ℕ)
    → a < 2 ^ 64
    → signed 64 (logic shr_op s64 a b) ≡ floor_shift (b % 2 ^ 32) (signed 64 a)
unfolding logic shr_within shr_clamped
shr_s64-floor_shift a b small =
    let sh = b % 2 ^ 32 in
    elim (Bool-cases (leb 64 sh)) [
      | inl past ↦
          rw
            (
              past,
              width_mask_whole (if leb (2 ^ 63) (a % 2 ^ 64) then 2 ^ 64 - 1 else 0),
              mod-eq_of_lt small,
            )
            (clamped64 a sh small (ground arith))
      | inr within ↦ rw (within, width_mask_whole (sar64 a sh)) (sar64-floor_shift a sh small)
    ]

shl_past : (a w sh : ℕ) → w ≤ sh → a * 2 ^ sh % 2 ^ w ≡ 0
shl_past a w sh past =
    let parts : 2 ^ sh ≡ 2 ^ (sh - w) * 2 ^ w =
      ap (λ t. 2 ^ t) (omega arith) ∙ two_pow_add (sh - w) w in
    let whole : a * 2 ^ sh ≡ a * 2 ^ (sh - w) * 2 ^ w =
      ap (λ t. a * t) parts ∙ sym (mul_assoc a (2 ^ (sh - w)) (2 ^ w)) in
    rw whole (mul-mod_left (a * 2 ^ (sh - w)) (2 ^ w))

-- `shl` multiplies by a power of two and keeps the low bits, at every amount and every width.
pub shl_lem :
    (type : IntType) (a b : ℕ)
    → logic shl_op type a b ≡ a * 2 ^ (b % 2 ^ 32) % 2 ^ int_type_bits type
unfolding logic shl_within
shl_lem type a b = at type
  where
    narrow :
        (w : ℕ)
        → w < 64
        → a * 2 ^ (b % 2 ^ 32) % 2 ^ 64 % 2 ^ w ≡ a * 2 ^ (b % 2 ^ 32) % 2 ^ w
        → width_mask (if leb w (b % 2 ^ 32) then 0 else a * 2 ^ (b % 2 ^ 32) % 2 ^ 64) w
          ≡ a * 2 ^ (b % 2 ^ 32) % 2 ^ w
    narrow w low same = ground (
      arith,
      width_mask_lem (if leb w (b % 2 ^ 32) then 0 else a * 2 ^ (b % 2 ^ 32) % 2 ^ 64) w low,
      shl_past a w (b % 2 ^ 32),
    )

    whole :
        width_mask (if leb 64 (b % 2 ^ 32) then 0 else a * 2 ^ (b % 2 ^ 32) % 2 ^ 64) 64
        ≡ a * 2 ^ (b % 2 ^ 32) % 2 ^ 64
    whole = ground (
      arith,
      width_mask_whole (if leb 64 (b % 2 ^ 32) then 0 else a * 2 ^ (b % 2 ^ 32) % 2 ^ 64),
      shl_past a 64 (b % 2 ^ 32),
    )

    at :
        (type : IntType)
        → width_mask
            (if leb (int_type_bits type) (b % 2 ^ 32) then 0 else a * 2 ^ (b % 2 ^ 32) % 2 ^ 64)
            (int_type_bits type)
          ≡ a * 2 ^ (b % 2 ^ 32) % 2 ^ int_type_bits type
    at b16 = narrow 16 (omega arith) (omega arith)
    at u16 = narrow 16 (omega arith) (omega arith)
    at s16 = narrow 16 (omega arith) (omega arith)
    at b32 = narrow 32 (omega arith) (omega arith)
    at u32 = narrow 32 (omega arith) (omega arith)
    at s32 = narrow 32 (omega arith) (omega arith)
    at b64 = whole
    at u64 = whole
    at s64 = whole

-- The signed right shift of 16 bits fills with zeros: it is the unsigned one.
pub shr_s16-shr_u16 : (a b : ℕ) → a < 2 ^ 16 → logic shr_op s16 a b ≡ logic shr_op u16 a b
unfolding logic shr_within shr_clamped
shr_s16-shr_u16 a b small = ground (arith, sar32_clear a (b % 2 ^ 32))
