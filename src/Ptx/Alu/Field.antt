-- ===== src/Ptx/Alu/Field.antt =====
-- software/rouge-ptx/ptx.cpp: `bfe`, the extraction of a bit field by the loop of the interpreter.
use rouge_v.Base.{Bool-cases, inl, inr, sym, ap, ◌∙◌}
use native.Mathlib.Decide.{dec_lt}
use native.Mathlib.Nat.{
  div-le_self, mod-le, div-add-mod', mod-lt, one-le-pow, pow-suc, pow-succ', mod-mod_of_dvd,
  dvd-mul_left, mul_assoc, add-mul-mod_self_left, zero-div, mul_comm, div-div-eq-div-mul,
  mod-eq_of_lt,
}
use rouge_v.Base.{
  ℕ, zero, suc, ◌+◌, ◌-◌, ◌*◌, ◌/◌, ◌%◌, ◌^◌, ◌≤◌, ◌<◌, ◌≡◌, Bool, false, bit_and, bit_or, leb, ltb,
  ◌==◌, ◌&&◌, if◌then◌else◌, arith,
}
use rouge_v.Base.Bits.{bit_or-fields_right, bit_and-one, bit_and-mask, two_pow_add}
use rouge_v.Ptx.Words.{width_mask}
use rouge_v.Ptx.Words.Shifts.{width_mask_lem, width_mask_whole}

-- One round: the bit of the field, or the fill behind it.
pub field_bit : ℕ → ℕ → ℕ → ℕ → ℕ → ℕ → ℕ
field_bit a pos len msb sbit i =
    if ltb i len && leb (pos + i) msb then bit_and (a / 2 ^ (pos + i)) 1 else sbit

-- The rounds for the indices below a bound.
pub field_bits : ℕ → ℕ → ℕ → ℕ → ℕ → ℕ → ℕ
field_bits a pos len msb sbit zero = 0
field_bits a pos len msb sbit (suc i) =
    bit_or (field_bits a pos len msb sbit i) (field_bit a pos len msb sbit i * 2 ^ i)

-- `bfe` with a destination of `bits` bits, the width that its register is declared with.
pub bfe : ℕ → Bool → ℕ → ℕ → ℕ → ℕ
bfe bits signed_field a b c =
    let pos = bit_and b 0xff in
    let len = bit_and c 0xff in
    let msb = bits - 1 in
    let top = if leb (pos + len - 1) msb then pos + len - 1 else msb in
    let sbit = if signed_field then bit_and (a / 2 ^ top) 1 else 0 in
    width_mask (if len == 0 then 0 else field_bits a pos len msb sbit (msb + 1)) bits

half_of_mod : (y m : ℕ) → y % 2 ^ suc m / 2 ≡ y / 2 % 2 ^ m
half_of_mod y m =
    let whole = div-add-mod' y (2 ^ suc m) in
    let unit = pow-suc 2 m in
    let q = y / 2 ^ suc m in
    let r = y % 2 ^ suc m in
    let small : r < 2 ^ suc m = mod-lt y (one-le-pow (suc m) 2 (omega arith)) in
    let turn : q * 2 ^ suc m ≡ 2 * (2 ^ m * q) =
      omega (arith, ap (λ t. q * t) unit, mul_assoc q (2 ^ m) 2, mul_comm q (2 ^ m)) in
    let parts : y / 2 ≡ r / 2 + 2 ^ m * q = omega (arith, whole, turn) in
    rw (parts, add-mul-mod_self_left (r / 2) (2 ^ m) q)
      (sym (mod-eq_of_lt (omega (arith, small, unit))))

digit_of_mod : (y n i : ℕ) → y % 2 ^ n / 2 ^ i % 2 ≡ (if ltb i n then y / 2 ^ i % 2 else 0)
digit_of_mod y zero i = ground (arith, zero-div (2 ^ i))
digit_of_mod y (suc m) zero =
    let even : y % 2 ^ suc m % 2 ≡ y % 2 =
      rw (pow-suc 2 m) (mod-mod_of_dvd 2 y (dvd-mul_left 2 (2 ^ m))) in
    ground (arith, even)
digit_of_mod y (suc m) (suc j) =
    let e : y % 2 ^ suc m / 2 ^ suc j ≡ y / 2 % 2 ^ m / 2 ^ j =
      ap (λ t. y % 2 ^ suc m / t) (pow-succ' 2 j)
      ∙ sym (div-div-eq-div-mul (y % 2 ^ suc m) 2 (2 ^ j))
      ∙ ap (λ t. t / 2 ^ j) (half_of_mod y m) in
    let e' : y / 2 ^ suc j ≡ y / 2 / 2 ^ j =
      ap (λ t. y / t) (pow-succ' 2 j) ∙ sym (div-div-eq-div-mul y 2 (2 ^ j)) in
    ground (arith, e, e', digit_of_mod (y / 2) m j)

-- The rounds below `n` rebuild the low digits of a number that they read the digits of.
next_digit : (z n : ℕ) → z % 2 ^ suc n ≡ z / 2 ^ n % 2 * 2 ^ n + z % 2 ^ n
next_digit z zero = omega arith
next_digit z (suc n) =
    let e : z / 2 ^ suc n ≡ z / 2 / 2 ^ n =
      ap (λ t. z / t) (pow-succ' 2 n) ∙ sym (div-div-eq-div-mul z 2 (2 ^ n)) in
    let d = z / 2 / 2 ^ n % 2 in
    let low = mod-mod_of_dvd 2 z (dvd-mul_left 2 (2 ^ n)) in
    let high = mod-mod_of_dvd 2 z (dvd-mul_left 2 (2 ^ suc n)) in
    let low' : z % 2 ^ suc n % 2 ≡ z % 2 = rw (pow-suc 2 n) low in
    let high' : z % 2 ^ suc (suc n) % 2 ≡ z % 2 = rw (pow-suc 2 (suc n)) high in
    let unit : d * 2 ^ suc n ≡ d * 2 ^ n * 2 =
      ap (λ t. d * t) (pow-suc 2 n) ∙ sym (mul_assoc d (2 ^ n) 2) in
    rw e (
      omega
        (arith, next_digit (z / 2) n, half_of_mod z n, half_of_mod z (suc n), low', high', unit))

field_bits_lem :
    (a pos len msb sbit z n : ℕ)
    → ((i : ℕ) → i < n → field_bit a pos len msb sbit i ≡ z / 2 ^ i % 2)
    → field_bits a pos len msb sbit n ≡ z % 2 ^ n
unfolding field_bits
field_bits_lem a pos len msb sbit z zero digits = omega arith
field_bits_lem a pos len msb sbit z (suc n) digits =
    let below = field_bits_lem a pos len msb sbit z n (λ i h. digits i (omega arith)) in
    let here = digits n (omega arith) in
    let small : z % 2 ^ n < 2 ^ n = mod-lt z (one-le-pow n 2 (omega arith)) in
    rw (below, here, bit_or-fields_right n (z / 2 ^ n % 2) (z % 2 ^ n) small) (sym (next_digit z n))

field_digit :
    (bits a pos len i : ℕ)
    → 0 < bits
    → field_bit a pos len (bits - 1) 0 i ≡ a % 2 ^ bits / 2 ^ pos % 2 ^ len / 2 ^ i % 2
unfolding field_bit
field_digit bits a pos len i positive =
    let e : a % 2 ^ bits / 2 ^ pos / 2 ^ i ≡ a % 2 ^ bits / 2 ^ (pos + i) =
      div-div-eq-div-mul (a % 2 ^ bits) (2 ^ pos) (2 ^ i)
      ∙ ap (λ t. a % 2 ^ bits / t) (sym (two_pow_add pos i)) in
    let outer = digit_of_mod (a % 2 ^ bits / 2 ^ pos) len i in
    let inner = digit_of_mod a bits (pos + i) in
    ground (arith, e, outer, inner, bit_and-one (a / 2 ^ (pos + i)))

mask_fits : (v bits : ℕ) → bits ≤ 64 → v < 2 ^ bits → width_mask v bits ≡ v
mask_fits v bits small fits = elim (dec_lt bits 64) [
  | yes narrow ↦ width_mask_lem v bits narrow ∙ mod-eq_of_lt fits
  | no wide ↦ let e : bits ≡ 64 = omega arith in rw e (width_mask_whole v)
]

-- The unsigned `bfe` into a register of 1 to 64 bits gives the field of `c % 256` bits that starts
-- at bit `b % 256`, cut at the width of the register.
pub bfe_unsigned :
    (bits a b c : ℕ)
    → 0 < bits
    → bits ≤ 64
    → bfe bits false a b c ≡ a % 2 ^ bits / 2 ^ (b % 256) % 2 ^ (c % 256)
unfolding bfe
bfe_unsigned bits a b c positive fits =
    let pos = b % 256 in
    let len = c % 256 in
    let z = a % 2 ^ bits / 2 ^ pos % 2 ^ len in
    let low : a % 2 ^ bits < 2 ^ bits = mod-lt a (one-le-pow bits 2 (omega arith)) in
    let cut = div-le_self (a % 2 ^ bits) (2 ^ pos) in
    let cut' = mod-le (a % 2 ^ bits / 2 ^ pos) (2 ^ len) in
    let small : z < 2 ^ bits = omega arith in
    let rounds : field_bits a pos len (bits - 1) 0 (bits - 1 + 1) ≡ z =
      ap (λ n. field_bits a pos len (bits - 1) 0 n) (omega arith)
      ∙ field_bits_lem a pos len (bits - 1) 0 z bits (λ i h. field_digit bits a pos len i positive)
      ∙ mod-eq_of_lt small in
    let value : (if len == 0 then 0 else field_bits a pos len (bits - 1) 0 (bits - 1 + 1)) ≡ z =
      elim (Bool-cases (len == 0)) [
        | inl empty ↦
            let no_bits : len ≡ 0 = ground arith in
            let nothing : z ≡ 0 = ap (λ n. a % 2 ^ bits / 2 ^ pos % 2 ^ n) no_bits ∙ omega arith in
            rw empty (sym nothing)
        | inr some_bits ↦ rw some_bits rounds
      ] in
    rw (bit_and-mask 8 b, bit_and-mask 8 c)
      (ap (λ v. width_mask v bits) value ∙ mask_fits z bits fits small)
