-- ===== src/Ptx/Words/Counts.antt =====
-- Leading zeros and set bits.
use native.Mathlib.Nat.{
  one-le-pow, div-lt_iff_lt-mul, mod-eq_of_lt, div-eq_of_lt, le_trans, lt-div-mul-add, mul_assoc,
}
use native.Mathlib.Decide.{dec_lt}
use rouge_v.Base.{
  ℕ, zero, suc, ◌+◌, ◌-◌, ◌*◌, ◌/◌, ◌^◌, ◌≤◌, ◌<◌, ◌≡◌, refl, arith, ◌==◌, false, bit_and,
}
use rouge_v.Base.Arith.{mul_mono_left}
use rouge_v.Base.Bits.{bit_and-mask, bit_and-shifted, two_pow_add}
use rouge_v.Ptx.Words.{clz_stage, clz32}

-- `v` has at most `zeros` leading zeros, after `n` shifts of `start`.
record IsShifted (start bound n v : ℕ) : Type 0 where
  pub shifted : v ≡ start * 2 ^ n
  pub fits : v < 2 ^ 32
  pub high : bound ≤ v

mul_lt : (v s r : ℕ) → v < r → 0 < s → v * s < s * r
mul_lt v s r h pos = grind arith

pos_div : (v r : ℕ) → 0 < r → r ≤ v → 0 < v / r * r
pos_div v r pos h = omega (arith, lt-div-mul-add {a = v} pos)

shift_more : (start v n sh : ℕ) → v ≡ start * 2 ^ n → v * 2 ^ sh ≡ start * 2 ^ (n + sh)
shift_more start v n sh e = rw (e, two_pow_add n sh) (mul_assoc start (2 ^ n) (2 ^ sh))

-- The mask of a stage is zero on `v` exactly when the top `sh` bits are.
top_bits :
    (sh rest v : ℕ)
    → 2 ^ sh * 2 ^ rest ≡ 2 ^ 32
    → v < 2 ^ 32
    → bit_and v ((2 ^ sh - 1) * 2 ^ rest) ≡ v / 2 ^ rest * 2 ^ rest
top_bits sh rest v whole fits =
    let small : v / 2 ^ rest < 2 ^ sh =
      (div-lt_iff_lt-mul (one-le-pow rest 2 (omega arith))).1 (rw whole fits) in
    ground (
      arith,
      bit_and-shifted rest v (2 ^ sh - 1),
      bit_and-mask sh (v / 2 ^ rest),
      mod-eq_of_lt {n = v / 2 ^ rest} {m = 2 ^ sh} small,
    )

-- A stage looks at the top `sh` bits, and leaves the word with the first of them near the top.
clz_stage-IsShifted :
    (start sh rest bound n v : ℕ)
    → 2 ^ sh * 2 ^ rest ≡ 2 ^ 32
    → 2 ^ rest ≤ bound * 2 ^ sh
    → IsShifted start bound n v
    → let r = clz_stage ((2 ^ sh - 1) * 2 ^ rest) sh (n, v) in IsShifted start (2 ^ rest) r.0 r.1
unfolding clz_stage
clz_stage-IsShifted start sh rest bound n v whole near s = elim (dec_lt v (2 ^ rest)) [
  | yes low ↦
      let clear : bit_and v ((2 ^ sh - 1) * 2 ^ rest) ≡ 0 =
        ground (arith, top_bits sh rest v whole s.fits, div-eq_of_lt {n = v} {m = 2 ^ rest} low) in
      let room : v * 2 ^ sh < 2 ^ 32 =
        rw (← whole) (mul_lt v (2 ^ sh) (2 ^ rest) low (one-le-pow sh 2 (omega arith))) in
      rw clear (
        rw (mod-eq_of_lt room) (record {
          shifted = shift_more start v n sh s.shifted;
          fits = room;
          high = le_trans near (mul_mono_left bound v (2 ^ sh) s.high);
        }))
  | no high ↦
      let some_bits : (bit_and v ((2 ^ sh - 1) * 2 ^ rest) == 0) ≡ false = ground (
        arith,
        top_bits sh rest v whole s.fits,
        pos_div v (2 ^ rest) (one-le-pow rest 2 (omega arith)) (omega arith),
      ) in
      rw some_bits (record { shifted = s.shifted; fits = s.fits; high = omega arith })
]

at_top :
    (start n v : ℕ)
    → IsShifted start (2 ^ 31) n v
    → (2 ^ 31 ≤ start * 2 ^ n) × (start * 2 ^ n < 2 ^ 32)
at_top start n v s = omega (arith, s.shifted, s.fits, s.high)

-- `clz32` is the shift that brings the first set bit of a word to the top.
clz32-normalises :
    (v : ℕ) → 0 < v → v < 2 ^ 32 → (2 ^ 31 ≤ v * 2 ^ clz32 v) × (v * 2 ^ clz32 v < 2 ^ 32)
unfolding clz32
clz32-normalises zero pos fits = absurd (omega arith)
clz32-normalises (suc v) pos fits =
    let start : IsShifted (suc v) 1 0 (suc v) = record {
      shifted = omega arith;
      fits = fits;
      high = pos;
    } in
    let s16 = clz_stage-IsShifted (suc v) 16 16 1 0 (suc v) refl (omega arith) start in
    let s8 = clz_stage-IsShifted (suc v) 8 24 (2 ^ 16) _ _ refl (omega arith) s16 in
    let s4 = clz_stage-IsShifted (suc v) 4 28 (2 ^ 24) _ _ refl (omega arith) s8 in
    let s2 = clz_stage-IsShifted (suc v) 2 30 (2 ^ 28) _ _ refl (omega arith) s4 in
    let s1 = clz_stage-IsShifted (suc v) 1 31 (2 ^ 30) _ _ refl (omega arith) s2 in
    let nonzero : (suc v == 0) ≡ false = ground arith in rw nonzero (at_top (suc v) _ _ s1)
