-- ===== src/Ptx/Half/Examples.antt =====
-- The 16-bit conversions at concrete patterns.
use rouge_v.Base.{◌≤◌, ◌≡◌, refl, arith}
use rouge_v.Ptx.Half.{f16_to_f32, f32_to_f16_rne, f32_to_bf16_rne, f16_normal, f16_subnormal}
use rouge_v.Ptx.Half.RoundTrip.{f32_to_f16_rne-f16_to_f32}
use rouge_v.Ptx.Half.Nearest.{NearestEven, f32_to_bf16_rne-NearestEven}
use rouge_v.Ptx.Half.Monotone.{
  f16_half, f16_scaled, f32_to_f16_rne-NearestEven, f32_to_f16_rne_mono,
}

one_third : f32_to_f16_rne 0x3eaa_aaab ≡ 0x3555
unfolding f32_to_f16_rne f16_normal
one_third = refl

least_subnormal : f32_to_f16_rne 0x3380_0000 ≡ 1
unfolding f32_to_f16_rne f16_subnormal
least_subnormal = refl

subnormal_to_f32 : f16_to_f32 1 ≡ 0x3380_0000
unfolding f16_to_f32
subnormal_to_f32 = refl

f32_to_f16_rne-f16_to_f32_example : f32_to_f16_rne (f16_to_f32 0xfc01) ≡ 0xfe00
f32_to_f16_rne-f16_to_f32_example = f32_to_f16_rne-f16_to_f32 0xfc01 (omega arith)

f32_to_bf16_rne-NearestEven_example : NearestEven 0x8000 0x3eaa_aaab (f32_to_bf16_rne 0x3eaa_aaab)
f32_to_bf16_rne-NearestEven_example = f32_to_bf16_rne-NearestEven 0x3eaa_aaab (omega arith)

f32_to_f16_rne-NearestEven_example :
    NearestEven (f16_half 0x3380_1234) (f16_scaled 0x3380_1234) (f32_to_f16_rne 0x3380_1234)
f32_to_f16_rne-NearestEven_example =
    f32_to_f16_rne-NearestEven 0x3380_1234 (omega arith) (omega arith)

f32_to_f16_rne_mono_example : f32_to_f16_rne 0x3380_1234 ≤ f32_to_f16_rne 0x4780_0000
f32_to_f16_rne_mono_example =
    f32_to_f16_rne_mono 0x3380_1234 0x4780_0000 (omega arith) (omega arith)
