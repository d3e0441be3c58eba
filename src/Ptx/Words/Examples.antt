-- ===== src/Ptx/Words/Examples.antt =====
-- The integer helpers at concrete words.
use rouge_v.Base.{◌≡◌, refl}
use rouge_v.Ptx.Words.{clz32, clz64, clz_stage, popcount32}

clz_of_one : clz32 1 ≡ 31
unfolding clz32 clz_stage
clz_of_one = refl

clz64_of_a_high_word : clz64 0x0000_0001_0000_0000 ≡ 31
unfolding clz64 clz32 clz_stage
clz64_of_a_high_word = refl

popcount_of_mixed : popcount32 0xf0f0_0001 ≡ 9
unfolding popcount32
popcount_of_mixed = refl
