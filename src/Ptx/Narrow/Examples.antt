-- ===== src/Ptx/Narrow/Examples.antt =====
-- The narrow formats at concrete patterns.
use rouge_v.Base.{◌≡◌, false, true, refl, arith, inl, inr}
use rouge_v.Ptx.Narrow.{e4m3, e3m2, narrow_to_f32, f32_to_narrow, narrow_normal, narrow_saturate}
use rouge_v.Ptx.Narrow.RoundTrip.{k4m3, k3m2, f32_to_narrow-narrow_to_f32}
use rouge_v.Ptx.Narrow.Saturation.{IsFinite, f32_to_narrow-IsFinite}

e4m3_of_256 : f32_to_narrow 0x4380_0000 e4m3 false false ≡ 0x78
unfolding f32_to_narrow narrow_normal narrow_saturate
e4m3_of_256 = refl

f32_to_narrow-narrow_to_f32_example : f32_to_narrow (narrow_to_f32 0x25 e3m2) e3m2 false true ≡ 0x25
f32_to_narrow-narrow_to_f32_example = f32_to_narrow-narrow_to_f32 k3m2 false true 0x25 (omega arith)

f32_to_narrow-IsFinite_example : IsFinite e4m3 (f32_to_narrow 0xff80_0000 e4m3 false false)
f32_to_narrow-IsFinite_example =
    f32_to_narrow-IsFinite k4m3 false false 0xff80_0000 (inr (inl refl))
