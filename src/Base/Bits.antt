-- ===== src/Base/Bits.antt =====
-- Laws of `&`, `|` and `^` on native numbers at variables: one equation for the lowest digit, and
-- from it what the operations do on fields of bits, as arithmetic.
use Prim.Native.Nat.{
  ℕ, zero, suc, ◌+◌, ◌-◌, ◌*◌, ◌/◌, ◌%◌, ◌^◌, ◌≤◌, ◌<◌, min, max, digits, bitwise, differ, bit_and,
  bit_or, bit_xor, bit_and-bitwise, bit_or-bitwise, bit_xor-bitwise,
}
use mathlib.Core.Path.{◌≡◌, refl, ap}
use native.Mathlib.Nat.{pow-suc, one-le-pow, div-div-eq-div-mul, add-zero, add-suc, mul-one}
use native.Mathlib.Omega.{arith}

-- The count of digits matters only while it runs out.
enough_digits :
    (z : ℕ → ℕ) (f : ℕ → ℕ → ℕ) (more less a b : ℕ)
    → a ≤ less
    → less ≤ more
    → digits z f more a b ≡ digits z f less a b
enough_digits z f zero zero a b h k = refl
enough_digits z f zero (suc less) a b h k = absurd (omega arith)
enough_digits z f (suc more) zero zero b h k = refl
enough_digits z f (suc more) zero (suc a) b h k = absurd (omega arith)
enough_digits z f (suc more) (suc less) zero b h k = refl
enough_digits z f (suc more) (suc less) (suc a) b h k =
    ap (λ (t : ℕ). t * 2 + f (suc a % 2) (b % 2))
      (enough_digits z f more less (suc a / 2) (b / 2) (omega arith) (omega arith))

lowest_digit :
    (empty : ℕ → ℕ) (digit : ℕ → ℕ → ℕ) (m n : ℕ)
    → bitwise empty digit (suc m) n
      ≡ bitwise empty digit (suc m / 2) (n / 2) * 2 + digit (suc m % 2) (n % 2)
lowest_digit empty digit m n =
    ap (λ (t : ℕ). t * 2 + digit (suc m % 2) (n % 2))
      (enough_digits empty digit m (suc m / 2) (suc m / 2) (n / 2) (omega arith) (omega arith))

pub bit_and-halves : (m n : ℕ) → bit_and m n ≡ bit_and (m / 2) (n / 2) * 2 + min (m % 2) (n % 2)
bit_and-halves zero b = simp bit_and-bitwise (omega arith)
bit_and-halves (suc a) b = simp bit_and-bitwise (lowest_digit (λ y. 0) min a b)

pub bit_or-halves : (m n : ℕ) → bit_or m n ≡ bit_or (m / 2) (n / 2) * 2 + max (m % 2) (n % 2)
bit_or-halves zero b = simp bit_or-bitwise (omega arith)
bit_or-halves (suc a) b = simp bit_or-bitwise (lowest_digit (λ y. y) max a b)

zero-bit_and : (b : ℕ) → bit_and 0 b ≡ 0
zero-bit_and b = bit_and-bitwise 0 b

pub zero-bit_or : (b : ℕ) → bit_or 0 b ≡ b
zero-bit_or b = bit_or-bitwise 0 b

zero-bit_xor : (b : ℕ) → bit_xor 0 b ≡ b
zero-bit_xor b = bit_xor-bitwise 0 b

differ_digit : (b : ℕ) → differ 0 b ≡ b
differ_digit zero = refl
differ_digit (suc b) = refl

pub bit_xor-halves : (a b : ℕ) → bit_xor a b ≡ bit_xor (a / 2) (b / 2) * 2 + differ (a % 2) (b % 2)
bit_xor-halves zero b = simp bit_xor-bitwise (omega (arith, differ_digit))
bit_xor-halves (suc a) b = simp bit_xor-bitwise (lowest_digit (λ y. y) differ a b)

bit_and-zero_below : (n a : ℕ) → a ≤ n → bit_and a 0 ≡ 0
bit_and-zero_below n zero h = zero-bit_and 0
bit_and-zero_below zero (suc a) h = absurd (omega arith)
bit_and-zero_below (suc n) (suc a) h =
    omega (arith, bit_and-halves (suc a) 0, bit_and-zero_below n (suc a / 2) (omega arith))

pub bit_and-zero : (a : ℕ) → bit_and a 0 ≡ 0
bit_and-zero a = bit_and-zero_below a a (omega arith)

bit_or-zero_below : (n a : ℕ) → a ≤ n → bit_or a 0 ≡ a
bit_or-zero_below n zero h = zero-bit_or 0
bit_or-zero_below zero (suc a) h = absurd (omega arith)
bit_or-zero_below (suc n) (suc a) h =
    omega (arith, bit_or-halves (suc a) 0, bit_or-zero_below n (suc a / 2) (omega arith))

pub bit_or-zero : (a : ℕ) → bit_or a 0 ≡ a
bit_or-zero a = bit_or-zero_below a a (omega arith)

differ-zero : (a : ℕ) → differ a 0 ≡ a
differ-zero zero = refl
differ-zero (suc a) = refl

bit_xor-zero_below : (n a : ℕ) → a ≤ n → bit_xor a 0 ≡ a
bit_xor-zero_below n zero h = zero-bit_xor 0
bit_xor-zero_below zero (suc a) h = absurd (omega arith)
bit_xor-zero_below (suc n) (suc a) h = ground (
  arith,
  bit_xor-halves (suc a) 0,
  bit_xor-zero_below n (suc a / 2) (omega arith),
  differ-zero (suc a % 2),
)

pub bit_xor-zero : (a : ℕ) → bit_xor a 0 ≡ a
bit_xor-zero a = bit_xor-zero_below a a (omega arith)

-- `x * 2 ^ (k + 1)` as twice `x * 2 ^ k`.
double_shift : (x k : ℕ) → x * 2 ^ suc k ≡ 2 * (x * 2 ^ k)
double_shift x k = omega (arith, ap (λ (t : ℕ). x * t) (pow-suc 2 k))

-- A mask of `k` low bits is the remainder by `2 ^ k`.
and_low : (k q r : ℕ) → r < 2 ^ k → bit_and (q * 2 ^ k + r) (2 ^ k - 1) ≡ r
and_low zero q r fits = omega (arith, bit_and-zero (q * 2 ^ 0 + r))
and_low (suc k) q r fits = ground (
  arith,
  bit_and-halves (q * 2 ^ suc k + r) (2 ^ suc k - 1),
  double_shift q k,
  pow-suc 2 k,
  one-le-pow k 2,
  and_low k q (r / 2) (omega (arith, pow-suc 2 k)),
)

pub bit_and-mask : (k a : ℕ) → bit_and a (2 ^ k - 1) ≡ a % 2 ^ k
bit_and-mask k a = ground (arith, one-le-pow k 2, and_low k (a / 2 ^ k) (a % 2 ^ k))

-- A mask whose low `s` bits are clear looks only at the bits from `s` on.
pub bit_and-shifted : (s a m : ℕ) → bit_and a (m * 2 ^ s) ≡ bit_and (a / 2 ^ s) m * 2 ^ s
bit_and-shifted zero a m = ground arith
bit_and-shifted (suc s) a m = ground (
  arith,
  bit_and-halves a (m * 2 ^ suc s),
  double_shift m s,
  pow-suc 2 s,
  bit_and-shifted s (a / 2) m,
  div-div-eq-div-mul a 2 (2 ^ s),
  double_shift (bit_and (a / 2 ^ suc s) m) s,
)

-- `(q << k) | r` is a sum where `r` fits in `k` bits.
pub bit_or-fields : (k q r : ℕ) → r < 2 ^ k → bit_or (q * 2 ^ k) r ≡ q * 2 ^ k + r
bit_or-fields zero q r fits = ground (arith, bit_or-zero q)
bit_or-fields (suc k) q r fits = ground (
  arith,
  bit_or-halves (q * 2 ^ suc k) r,
  double_shift q k,
  pow-suc 2 k,
  bit_or-fields k q (r / 2) (omega (arith, pow-suc 2 k)),
)

pub bit_or-fields_right : (k q r : ℕ) → r < 2 ^ k → bit_or r (q * 2 ^ k) ≡ q * 2 ^ k + r
bit_or-fields_right zero q zero fits = omega (arith, zero-bit_or (q * 2 ^ 0))
bit_or-fields_right zero q (suc r) fits = absurd (omega arith)
bit_or-fields_right (suc k) q r fits = ground (
  arith,
  bit_or-halves r (q * 2 ^ suc k),
  double_shift q k,
  pow-suc 2 k,
  bit_or-fields_right k q (r / 2) (omega (arith, pow-suc 2 k)),
)

pub two_pow_add : (a b : ℕ) → 2 ^ (a + b) ≡ 2 ^ a * 2 ^ b
two_pow_add a zero = simp (add-zero, mul-one)
two_pow_add a (suc b) = omega (
  arith,
  ap (λ (t : ℕ). 2 ^ t) (add-suc a b),
  pow-suc 2 (a + b),
  pow-suc 2 b,
  two_pow_add a b,
  ap (λ (t : ℕ). 2 ^ a * t) (pow-suc 2 b),
)

-- `^` with the single bit `k` adds or takes away `2 ^ k`.
pub bit_xor-top :
    (k v : ℕ) → v < 2 ^ k → (bit_xor v (2 ^ k) ≡ v + 2 ^ k) × (bit_xor (v + 2 ^ k) (2 ^ k) ≡ v)
bit_xor-top zero zero fits = (refl, refl)
bit_xor-top zero (suc v) fits = absurd (omega arith)
bit_xor-top (suc k) v fits =
    let half = bit_xor-top k (v / 2) (omega (arith, pow-suc 2 k)) in
    let e : 2 ^ suc k / 2 ≡ 2 ^ k = omega (arith, pow-suc 2 k) in
    let z : 2 ^ suc k % 2 ≡ 0 = omega (arith, pow-suc 2 k) in
    let up : (v + 2 ^ suc k) / 2 ≡ v / 2 + 2 ^ k = omega (arith, pow-suc 2 k) in
    let same : (v + 2 ^ suc k) % 2 ≡ v % 2 = omega (arith, pow-suc 2 k) in
    (
      ground (arith, bit_xor-halves v (2 ^ suc k), differ-zero (v % 2), half, pow-suc 2 k),
      ground (arith, bit_xor-halves (v + 2 ^ suc k) (2 ^ suc k), differ-zero (v % 2), half),
    )

pub bit_and-one : (a : ℕ) → bit_and a 1 ≡ a % 2
bit_and-one = bit_and-mask 1
