-- ===== src/Ptx/Half/RoundTrip.antt =====
-- Round trips of the 16-bit formats.
use rouge_v.Base.{
  ℕ, ◌+◌, ◌*◌, ◌/◌, ◌%◌, ◌^◌, ◌<◌, ◌≡◌, refl, arith, Bool, true, ltb, ◌==◌, if◌then◌else◌, ==_iff,
}
use rouge_v.Base.Bits.{bit_and-mask}
use rouge_v.Base.Table.{test_up_to, test_up_to_at}
use rouge_v.Ptx.Half.{
  f16_subnormal, f16_normal, f16_to_f32, f32_to_f16_rne, bf16_to_f32, f32_to_bf16_rne,
}

-- An all-ones exponent with a fraction.
abbrev pub is_nan16 : ℕ → Bool
is_nan16 h = ltb 0x7c00 (h % 0x8000)

f16_table :
    test_up_to
      (λ h.
        f32_to_f16_rne (f16_to_f32 h) == (if is_nan16 h then h / 0x8000 * 0x8000 + 0x7e00 else h))
      65536
    ≡ true
unfolding f32_to_f16_rne f16_subnormal f16_normal f16_to_f32 test_up_to
f16_table = refl

-- Every binary16 pattern that is not a NaN comes back from binary32 unchanged, subnormal numbers,
-- zeros and infinities included; a NaN comes back as the quiet NaN of its sign.
pub f32_to_f16_rne-f16_to_f32 :
    (h : ℕ)
    → h < 65536
    → f32_to_f16_rne (f16_to_f32 h) ≡ (if is_nan16 h then h / 0x8000 * 0x8000 + 0x7e00 else h)
f32_to_f16_rne-f16_to_f32 h fits = (==_iff _ _).0 (test_up_to_at _ _ _ fits f16_table)

-- Every bfloat16 pattern comes back from binary32 unchanged, NaNs included.
f32_to_bf16_rne-bf16_to_f32 : (b : ℕ) → b < 65536 → f32_to_bf16_rne (bf16_to_f32 b) ≡ b
unfolding f32_to_bf16_rne bf16_to_f32
f32_to_bf16_rne-bf16_to_f32 b fits =
    ground (arith, bit_and-mask 16 (b * 2 ^ 16 / 2 ^ 16), bit_and-mask 1 (b * 2 ^ 16 / 2 ^ 16))
