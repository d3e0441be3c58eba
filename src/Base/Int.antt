-- ===== src/Base/Int.antt =====
-- Signed integers over the native numbers, and the number that a bit pattern of a width stands
-- for in two's complement.
use Prim.Native.Nat.{ℕ, suc, ◌+◌, ◌-◌, ◌*◌, ◌/◌, ◌%◌, ◌^◌, ◌≤◌, ◌<◌}
use mathlib.Core.Bool.{Bool}
use rouge_v.Base.Tests.{ltb, leb, if◌then◌else◌}

-- `negsuc n` is -(n + 1).
pub data ℤ : Type 0 where
  pos : ℕ → ℤ
  negsuc : ℕ → ℤ

abbrev pub pos_part : ℤ → ℕ
pos_part (pos n) = n
pos_part (negsuc n) = 0

abbrev pub neg_part : ℤ → ℕ
neg_part (pos n) = 0
neg_part (negsuc n) = suc n

-- a - b, as an integer.
abbrev pub sub_ℕ : ℕ → ℕ → ℤ
sub_ℕ a b = if leb b a then pos (a - b) else negsuc (b - a - 1)

infixl 65 ◌+ℤ◌
infixl 70 ◌*ℤ◌
infix 50 ◌≤ℤ◌ ◌<ℤ◌
unfoldable pub ◌+ℤ◌ : ℤ → ℤ → ℤ
a +ℤ b = sub_ℕ (pos_part a + pos_part b) (neg_part a + neg_part b)

unfoldable pub ◌*ℤ◌ : ℤ → ℤ → ℤ
a *ℤ b =
    sub_ℕ (pos_part a * pos_part b + neg_part a * neg_part b)
      (pos_part a * neg_part b + neg_part a * pos_part b)

abbrev pub ◌≤ℤ◌ : ℤ → ℤ → Type 0
a ≤ℤ b = pos_part a + neg_part b ≤ pos_part b + neg_part a

abbrev pub ◌<ℤ◌ : ℤ → ℤ → Type 0
a <ℤ b = pos_part a + neg_part b < pos_part b + neg_part a

abbrev pub ltb_ℤ : ℤ → ℤ → Bool
ltb_ℤ a b = ltb (pos_part a + neg_part b) (pos_part b + neg_part a)

-- A pattern of `bits` bits, below `2 ^ bits`.
abbrev pub signed : ℕ → ℕ → ℤ
signed bits v = if ltb v (2 ^ (bits - 1)) then pos v else negsuc (2 ^ bits - v - 1)

-- The pattern of `bits` bits that keeps an integer modulo `2 ^ bits`, for one that fits.
abbrev pub pattern_of : ℕ → ℤ → ℕ
pattern_of bits (pos n) = n
pattern_of bits (negsuc n) = 2 ^ bits - suc n

-- Division by `2 ^ s` towards minus infinity.
abbrev pub floor_shift : ℕ → ℤ → ℤ
floor_shift s (pos n) = pos (n / 2 ^ s)
floor_shift s (negsuc n) = negsuc (n / 2 ^ s)

-- `x / y` and `x % y` of C, for a divisor that is not 0: the quotient goes towards 0 and the
-- remainder has the sign of `x`.
abbrev pub magnitude : ℤ → ℕ
magnitude x = pos_part x + neg_part x

abbrev pub negate_ℕ : ℕ → ℤ
negate_ℕ n = sub_ℕ 0 n

abbrev pub truncated_div : ℤ → ℤ → ℤ
truncated_div (pos a) (pos b) = pos (a / b)
truncated_div (pos a) (negsuc b) = negate_ℕ (a / suc b)
truncated_div (negsuc a) (pos b) = negate_ℕ (suc a / b)
truncated_div (negsuc a) (negsuc b) = pos (suc a / suc b)

abbrev pub truncated_rem : ℤ → ℤ → ℤ
truncated_rem (pos a) b = pos (a % magnitude b)
truncated_rem (negsuc a) b = negate_ℕ (suc a % magnitude b)
