-- ===== src/Ptx/Alu/Examples.antt =====
-- The integer instructions at concrete operands.
use rouge_v.Base.{◌*◌, ℕ, ◌^◌, ◌<◌, ◌≡◌, false, arith, some, inl}
use rouge_v.Base.{ap, ◌+◌}
use rouge_v.Ptx.Words.Shifts.{width_mask_lem}
use rouge_v.Base.Int.{pos, negsuc, signed, magnitude, floor_shift, ◌+ℤ◌, ◌*ℤ◌}
use rouge_v.Ptx.Alu.{
  u32, u16, s16, s32, shl_op, shr_op, logic, lo, hi, multiply, div_op, rem_op, divide,
}
use rouge_v.Ptx.Alu.Shift.{shr_s32-floor_shift, shl_lem, shr_s16-shr_u16}
use rouge_v.Ptx.Alu.Multiply.{mul_hi_s32-floor_shift, mul_hi_lo_u32}
use rouge_v.Ptx.Alu.Divide.{divide_s32}
use rouge_v.Ptx.Alu.Field.{bfe, bfe_unsigned}

shr_s32-floor_shift_example : signed 32 (logic shr_op s32 0xffff_fff0 33) ≡ negsuc 0
shr_s32-floor_shift_example = shr_s32-floor_shift 0xffff_fff0 33

shl_lem_example : logic shl_op u16 0x1234 4 ≡ 0x2340
shl_lem_example = shl_lem u16 0x1234 4

shr_s16-shr_u16_example : logic shr_op s16 0x8000 1 ≡ logic shr_op u16 0x8000 1
shr_s16-shr_u16_example = shr_s16-shr_u16 0x8000 1 (omega arith)

mul_hi_s32-floor_shift_example :
    (r : ℕ) × (multiply hi s32 0xffff_fffe 3 0 ≡ some r)
    × (signed 32 r ≡ floor_shift 32 (signed 32 0xffff_fffe *ℤ pos 3))
mul_hi_s32-floor_shift_example = mul_hi_s32-floor_shift 0xffff_fffe 3 0

mul_hi_lo_u32_example :
    (h l : ℕ) × (multiply hi u32 0xffff_ffff 0xffff_ffff 0 ≡ some h)
    × (multiply lo u32 0xffff_ffff 0xffff_ffff 0 ≡ some l)
    × (h * 2 ^ 32 + l ≡ 0xffff_ffff * 0xffff_ffff)
    × (l < 2 ^ 32)
mul_hi_lo_u32_example = mul_hi_lo_u32 0xffff_ffff 0xffff_ffff

divide_s32_example :
    (q r : ℕ) × (divide div_op s32 0xffff_fff9 2 ≡ some q)
    × (divide rem_op s32 0xffff_fff9 2 ≡ some r)
    × (signed 32 q *ℤ pos 2 +ℤ signed 32 r ≡ negsuc 6)
    × (magnitude (signed 32 r) < 2)
divide_s32_example = divide_s32 0xffff_fff9 2 (omega arith) (inl (omega arith))

-- The remainder of the least number by -1 is 0; the interpreter stores the least number.
rem_of_the_least : divide rem_op s32 0x8000_0000 0xffff_ffff ≡ some 0x8000_0000
unfolding divide
rem_of_the_least = ap some (width_mask_lem 0x8000_0000 32 (omega arith))

bfe_unsigned_example : bfe 32 false 0x1234_5678 8 12 ≡ 0x456
bfe_unsigned_example = bfe_unsigned 32 0x1234_5678 8 12 (omega arith) (omega arith)
