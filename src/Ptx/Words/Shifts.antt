-- ===== src/Ptx/Words/Shifts.antt =====
-- Sign extension and arithmetic shifts, as operations on the signed numbers that words stand for.
use rouge_v.Base.{ℕ, zero, suc, ◌+◌, ◌-◌, ◌/◌, ◌%◌, ◌^◌, ◌≤◌, ◌<◌, ◌≡◌, refl, arith, leb}
use native.Mathlib.Decide.{dec_lt}
use mathlib.Core.Path.{subst, sym}
use mathlib.Core.Bool.{false}
use native.Mathlib.Nat.{one-le-pow, div-le_self, pow-suc, pow-le-pow_right}
use rouge_v.Base.Bits.{bit_and-mask, bit_and-shifted, bit_and-one, bit_xor-top}
use rouge_v.Base.Int.{signed, floor_shift}
use rouge_v.Ptx.Words.{width_mask, sext64, sar32, sar64}

pub width_mask_lem : (v bits : ℕ) → bits < 64 → width_mask v bits ≡ v % 2 ^ bits
unfolding width_mask
width_mask_lem v bits h = ground (arith, bit_and-mask bits v)

-- `sar32` is division by a power of two towards minus infinity on the signed numbers.
pub sar32-floor_shift :
    (v sh : ℕ) → v < 2 ^ 32 → signed 32 (sar32 v sh) ≡ floor_shift sh (signed 32 v)
unfolding sar32
sar32-floor_shift v sh h = ground (
  arith,
  bit_and-shifted 31 v 1,
  bit_and-one (v / 2 ^ 31),
  one-le-pow sh 2,
  div-le_self (2 ^ 32 - 1 - v) (2 ^ sh),
  div-le_self v (2 ^ sh),
)

pub sar64-floor_shift :
    (v sh : ℕ) → v < 2 ^ 64 → signed 64 (sar64 v sh) ≡ floor_shift sh (signed 64 v)
unfolding sar64
sar64-floor_shift v sh h = ground (
  arith,
  bit_and-shifted 63 v 1,
  bit_and-one (v / 2 ^ 63),
  one-le-pow sh 2,
  div-le_self (2 ^ 64 - 1 - v) (2 ^ sh),
  div-le_self v (2 ^ sh),
)

narrow_case : (v b : ℕ) → b < 63 → v < 2 ^ suc b → signed 64 (sext64 v (suc b)) ≡ signed (suc b) v
unfolding sext64
narrow_case v b h fits =
    let e : suc b - 1 ≡ b = omega arith in
    let small : 2 ^ b ≤ 2 ^ 62 = pow-le-pow_right (omega arith) {j = 62} (omega arith) in
    let e' : leb 64 (suc b) ≡ false = ground arith in
    rw (e, e')
      (elim (dec_lt v (2 ^ b)) [
        | yes low ↦ ground (arith, bit_xor-top b v low, pow-suc 2 b)
        | no high ↦
            let e'' : v - 2 ^ b + 2 ^ b ≡ v = omega arith in
            ground (arith, bit_xor-top b (v - 2 ^ b) (omega (arith, pow-suc 2 b)), pow-suc 2 b)
      ])

pub sext64-signed :
    (v bits : ℕ) → 0 < bits → bits ≤ 64 → v < 2 ^ bits → signed 64 (sext64 v bits) ≡ signed bits v
sext64-signed v zero positive h fits = absurd (omega arith)
sext64-signed v (suc b) positive h fits = elim (dec_lt b 63) [
  | yes narrow ↦ narrow_case v b narrow fits
  | no wide ↦
      let e : b ≡ 63 = omega arith in
      subst (λ k. v < 2 ^ suc k → signed 64 (sext64 v (suc k)) ≡ signed (suc k) v) (sym e)
        (λ _. unfold sext64 in refl) fits
]

pub width_mask_whole : (v : ℕ) → width_mask v 64 ≡ v
unfolding width_mask
width_mask_whole v = refl

pub sar32_fits : (v sh : ℕ) → v < 2 ^ 32 → sar32 v sh < 2 ^ 32
unfolding sar32
sar32_fits v sh h = ground (arith, div-le_self (2 ^ 32 - 1 - v) (2 ^ sh), div-le_self v (2 ^ sh))

pub sar32_clear : (v sh : ℕ) → v < 2 ^ 31 → sar32 v sh ≡ v / 2 ^ sh
unfolding sar32
sar32_clear v sh h = ground (arith, bit_and-shifted 31 v 1, bit_and-one (v / 2 ^ 31))

pub sar64_fits : (v sh : ℕ) → v < 2 ^ 64 → sar64 v sh < 2 ^ 64
unfolding sar64
sar64_fits v sh h = ground (arith, div-le_self (2 ^ 64 - 1 - v) (2 ^ sh), div-le_self v (2 ^ sh))
