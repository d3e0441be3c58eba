-- ===== src/Base/Arith.antt =====
-- Products and quotients against orders.
use Prim.Native.Nat.{ℕ, ◌*◌, ◌/◌, ◌≤◌, ◌<◌}
use native.Mathlib.Nat.{le_trans, le-div_iff_mul-le, div-mul-le_self}
use native.Mathlib.Omega.{arith}

pub mul_mono : (a b c : ℕ) → b ≤ c → a * b ≤ a * c
mul_mono a b c h = grind arith

pub mul_mono_left : (a b c : ℕ) → a ≤ b → a * c ≤ b * c
mul_mono_left a b c h = grind arith

pub div_antitone : (c a b : ℕ) → 0 < a → a ≤ b → c / b ≤ c / a
div_antitone c a b pos h =
    (le-div_iff_mul-le pos).1 (le_trans (mul_mono (c / b) a b h) (div-mul-le_self c b))

pub div_mono : (a b c : ℕ) → 0 < c → a ≤ b → a / c ≤ b / c
div_mono a b c pos h = (le-div_iff_mul-le pos).1 (le_trans (div-mul-le_self a c) h)
