-- ===== src/Ptx/Alu/MinMax.antt =====
-- The lesser and the greater of two numbers.
use rouge_v.Base.{ℕ, ◌%◌, ◌^◌, ◌≡◌, Bool, true, false, if◌then◌else◌, arith, some, ◌⊎◌, ap}
use rouge_v.Base.Int.{signed, ◌≤ℤ◌}
use rouge_v.Ptx.Words.{width_mask}
use rouge_v.Ptx.Words.Shifts.{width_mask_lem}
use rouge_v.Ptx.Alu.{s32, less, min_max}

-- `min.s32` gives one of its operands, and no operand is less; `max.s32` the same the other way.
pub min_max_s32 :
    (is_min : Bool) (a b : ℕ)
    → (r : ℕ) × (min_max is_min s32 a b ≡ some r)
      × ((r ≡ a % 2 ^ 32) ⊎ (r ≡ b % 2 ^ 32))
      × (if is_min
          then (signed 32 r ≤ℤ signed 32 (a % 2 ^ 32)) × (signed 32 r ≤ℤ signed 32 (b % 2 ^ 32))
          else (signed 32 (a % 2 ^ 32) ≤ℤ signed 32 r) × (signed 32 (b % 2 ^ 32) ≤ℤ signed 32 r))
unfolding min_max
min_max_s32 true a b =
    let x = a % 2 ^ 32 in
    let y = b % 2 ^ 32 in
    let r = if less 32 true x y then x else y in
    let m : width_mask r 32 ≡ r = ground (arith, width_mask_lem r 32) in
    (r, ap some m, ground arith, (ground arith, ground arith))
min_max_s32 false a b =
    let x = a % 2 ^ 32 in
    let y = b % 2 ^ 32 in
    let r = if less 32 true y x then x else y in
    let m : width_mask r 32 ≡ r = ground (arith, width_mask_lem r 32) in
    (r, ap some m, ground arith, (ground arith, ground arith))
