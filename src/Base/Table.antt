-- ===== src/Base/Table.antt =====
-- A Boolean test of all the numbers below a bound, for the proofs that evaluate every pattern of a
-- small format.
use Prim.Native.Nat.{ℕ, zero, suc, ◌<◌}
use mathlib.Core.Path.{◌≡◌}
use mathlib.Core.Bool.{Bool, true, ◌&&◌}
use native.Mathlib.Omega.{arith}

unfoldable pub test_up_to : (ℕ → Bool) → ℕ → Bool
test_up_to test zero = true
test_up_to test (suc bound) = test_up_to test bound && test bound

pub test_up_to_at :
    (test : ℕ → Bool) (bound v : ℕ) → v < bound → test_up_to test bound ≡ true → test v ≡ true
unfolding test_up_to
test_up_to_at test zero v small good = absurd (omega arith)
test_up_to_at test (suc bound) v small good = ground (arith, test_up_to_at test bound v)
