-- ===== src/Ptx/Narrow/RoundTrip.antt =====
-- Decoding a narrow float and encoding it again.
use rouge_v.Base.{
  ℕ, ◌+◌, ◌*◌, ◌/◌, ◌%◌, ◌^◌, ◌<◌, ◌≡◌, refl, arith, Bool, true, false, ◌&&◌, ltb, ◌==◌,
  if◌then◌else◌, ==_iff,
}
use rouge_v.Base.Table.{test_up_to, test_up_to_at}
use rouge_v.Ptx.Narrow.{
  NarrowFpFormat, e4m3, e5m2, e3m2, e2m3, e2m1, narrow_to_f32, f32_to_narrow, narrow_subnormal,
  narrow_normal, narrow_cap, narrow_saturate, narrow_pack, narrow_unpack,
}

-- The five formats of the source.
pub data Kind : Type 0 where
  k4m3 k5m2 k3m2 k2m3 k2m1 : Kind

abbrev pub format : Kind → NarrowFpFormat
format k4m3 = e4m3
format k5m2 = e5m2
format k3m2 = e3m2
format k2m3 = e2m3
format k2m1 = e2m1

-- The pattern of a NaN, by the flag `nanToMax`: `MAX_NORM` without its sign, or all bits but the
-- sign set.
abbrev pub nan_of : Bool → ℕ → ℕ → ℕ
nan_of nan_to_max max_bits b = if nan_to_max then max_bits else b / 128 * 128 + 0x7f

-- The infinities of e5m2 saturate, and the NaNs of e4m3 and e5m2 go by the flag.
abbrev pub canonical : Kind → Bool → ℕ → ℕ
canonical k5m2 nan_to_max b =
    if ltb 0x7c (b % 128)
    then nan_of nan_to_max 0x7b b
    else if b % 128 == 0x7c
    then b / 128 * 128 + 0x7b
    else b
canonical k4m3 nan_to_max b = if b % 128 == 0x7f then nan_of nan_to_max 0x7e b else b
canonical k3m2 nan_to_max b = b
canonical k2m3 nan_to_max b = b
canonical k2m1 nan_to_max b = b

back : Kind → Bool → Bool → ℕ → ℕ
back k to_zero nan_to_max b =
    f32_to_narrow (narrow_to_f32 b (format k)) (format k) to_zero nan_to_max

table :
    (k : Kind) (to_zero nan_to_max : Bool)
    → test_up_to
        (λ b. back k to_zero nan_to_max b == canonical k nan_to_max b)
        (2 ^ (format k).field_width)
      ≡ true
unfolding back f32_to_narrow narrow_to_f32 narrow_subnormal narrow_normal narrow_cap narrow_saturate
    test_up_to
table k4m3 true true = refl
table k5m2 true true = refl
table k3m2 true true = refl
table k2m3 true true = refl
table k2m1 true true = refl
table k4m3 true false = refl
table k5m2 true false = refl
table k3m2 true false = refl
table k2m3 true false = refl
table k2m1 true false = refl
table k4m3 false true = refl
table k5m2 false true = refl
table k3m2 false true = refl
table k2m3 false true = refl
table k2m1 false true = refl
table k4m3 false false = refl
table k5m2 false false = refl
table k3m2 false false = refl
table k2m3 false false = refl
table k2m1 false false = refl

-- Every pattern of every format comes back from binary32 unchanged under both roundings and both
-- rules for NaNs, zeros of both signs and subnormal numbers included, but for the infinities of
-- e5m2, which saturate, and the NaNs of e4m3 and e5m2, which become the largest positive number
-- or the NaN of their sign with all bits set, as the flag says.
pub f32_to_narrow-narrow_to_f32 :
    (k : Kind) (to_zero nan_to_max : Bool) (b : ℕ)
    → b < 2 ^ (format k).field_width
    → f32_to_narrow (narrow_to_f32 b (format k)) (format k) to_zero nan_to_max
      ≡ canonical k nan_to_max b
unfolding back
f32_to_narrow-narrow_to_f32 k to_zero nan_to_max b fits =
    (==_iff _ _).0 (test_up_to_at _ _ _ fits (table k to_zero nan_to_max))

container_back : Kind → ℕ → Bool
container_back k b =
    narrow_unpack (narrow_pack b (format k)) (format k) == b
    && ltb (narrow_pack b (format k)) (2 ^ (format k).container_bits)

container_table : (k : Kind) → test_up_to (container_back k) (2 ^ (format k).field_width) ≡ true
unfolding container_back narrow_pack narrow_unpack test_up_to
container_table k4m3 = refl
container_table k5m2 = refl
container_table k3m2 = refl
container_table k2m3 = refl
container_table k2m1 = refl

-- A field placed in its container fits the container and is read back unchanged.
narrow_unpack-narrow_pack :
    (k : Kind) (b : ℕ)
    → b < 2 ^ (format k).field_width
    → (narrow_unpack (narrow_pack b (format k)) (format k) ≡ b)
      × (narrow_pack b (format k) < 2 ^ (format k).container_bits)
unfolding container_back
narrow_unpack-narrow_pack k b fits =
    let good = test_up_to_at _ _ _ fits (container_table k) in ground (arith, good)
