-- ===== src/Ptx/Half/Monotone.antt =====
-- `f32_to_f16_rne` on all patterns with a clear sign: the rounding of each range, and the order.
use native.Mathlib.Decide.{dec_lt, dec_le}
use native.Mathlib.Nat.{mod-lt, pow-suc, one-le-pow, le_trans, pow-le-pow_right, div-add-mod}
use rouge_v.Base.{
  ℕ, suc, ◌+◌, ◌-◌, ◌*◌, ◌/◌, ◌%◌, ◌^◌, ◌≤◌, ◌<◌, ◌≡◌, inl, inr, arith, true, false, leb,
  if◌then◌else◌, ap, ◌∙◌, sym,
}
use rouge_v.Base.Arith.{mul_mono, mul_mono_left}
use rouge_v.Base.Bits.{two_pow_add}
use rouge_v.Ptx.Half.{f32_to_f16_rne}
use rouge_v.Ptx.Half.Nearest.{
  NearestEven, round_even-NearestEven, f16_normal_lem, f16_subnormal_lem, f16_underflow,
  f16_below_normal, f16_in_range, f16_overflow,
}

-- What half a unit of the result is worth, and the pattern in the same scale: below the normal
-- range the significand, else the pattern with its bias moved.
abbrev pub f16_half : ℕ → ℕ
f16_half x = if leb (x / 2 ^ 23) 112 then 2 ^ (125 - x / 2 ^ 23) else 2 ^ 12

abbrev pub f16_scaled : ℕ → ℕ
f16_scaled x = if leb (x / 2 ^ 23) 112 then x % 2 ^ 23 + 2 ^ 23 else x - 112 * 2 ^ 23

below_normal_NearestEven :
    (x : ℕ)
    → 102 * 2 ^ 23 ≤ x
    → x < 113 * 2 ^ 23
    → NearestEven (2 ^ (125 - x / 2 ^ 23)) (x % 2 ^ 23 + 2 ^ 23) (f32_to_f16_rne x)
below_normal_NearestEven x low high =
    let s = 125 - x / 2 ^ 23 in
    let v = x % 2 ^ 23 + 2 ^ 23 in
    let e =
      f16_below_normal x low high ∙ f16_subnormal_lem (x % 2 ^ 23) s (omega arith) (omega arith) in
    let unit : 2 * 2 ^ s ≡ 2 ^ suc s = omega (arith, pow-suc 2 s) in
    let parts : v ≡ v / 2 ^ suc s * 2 ^ suc s + v % 2 ^ suc s =
      omega (arith, div-add-mod v (2 ^ suc s)) in
    let rest : v % 2 ^ suc s < 2 ^ suc s = mod-lt v (one-le-pow (suc s) 2 (omega arith)) in
    rw e (
      round_even-NearestEven (2 ^ s) v (v / 2 ^ suc s) (v % 2 ^ suc s) (rw unit parts)
        (rw unit rest))

in_range_NearestEven :
    (x : ℕ)
    → 113 * 2 ^ 23 ≤ x
    → x < 143 * 2 ^ 23
    → NearestEven (2 ^ 12) (x - 112 * 2 ^ 23) (f32_to_f16_rne x)
in_range_NearestEven x low high =
    let man = x % 2 ^ 23 in
    let exp = x / 2 ^ 23 - 112 in
    let e = f16_in_range x low high ∙ f16_normal_lem man exp (omega arith) (omega arith) in
    rw e (
      round_even-NearestEven (2 ^ 12) (x - 112 * 2 ^ 23) (exp * 2 ^ 10 + man / 2 ^ 13)
        (man % 2 ^ 13) (omega arith) (omega arith))

-- Between the underflow threshold and the overflow threshold the result is the nearest
-- representable number, and the even one of two that are as near.
pub f32_to_f16_rne-NearestEven :
    (x : ℕ)
    → 102 * 2 ^ 23 ≤ x
    → x < 143 * 2 ^ 23
    → NearestEven (f16_half x) (f16_scaled x) (f32_to_f16_rne x)
f32_to_f16_rne-NearestEven x low high = elim (dec_lt x (113 * 2 ^ 23)) [
  | yes below ↦
      let t : leb (x / 2 ^ 23) 112 ≡ true = ground arith in
      rw t (below_normal_NearestEven x low below)
  | no above ↦
      let f : leb (x / 2 ^ 23) 112 ≡ false = ground arith in
      rw f (in_range_NearestEven x (omega arith) high)
]

mul_lt : (a b c : ℕ) → 0 < c → a < b → a * c < b * c
mul_lt a b c pos h = grind arith

nearest_mono :
    (half v w r q : ℕ) → 0 < half → v ≤ w → NearestEven half v r → NearestEven half w q → r ≤ q
nearest_mono half v w r q pos h n m = elim (dec_le r q) [
  | yes le ↦ le
  | no gt ↦ elim (dec_lt (q + 1) r) [
    | yes far ↦ absurd (ground (arith, mul_mono_left (q + 2) r (2 * half) (omega arith)))
    | no near ↦
        let e : r ≡ q + 1 = omega arith in
        let p : r * (2 * half) ≡ q * (2 * half) + 2 * half =
          omega (arith, ap (λ (t : ℕ). t * (2 * half)) e) in
        absurd (ground (arith, p))
  ]
]

-- Below the normal range all results count units of 2 ^ 24 in this scale.
abbrev common : ℕ → ℕ
common x = (x % 2 ^ 23 + 2 ^ 23) * 2 ^ (x / 2 ^ 23 - 102)

nearest_scale : (half v r c : ℕ) → 0 < c → NearestEven half v r → NearestEven (half * c) (v * c) r
nearest_scale half v r c pos (inl (below, above)) =
    inl (omega (arith, mul_lt v _ c pos below), omega (arith, mul_lt _ _ c pos above))
nearest_scale half v r c pos (inr (inl e, even)) =
    inr (inl (omega (arith, ap (λ (t : ℕ). t * c) e)), even)
nearest_scale half v r c pos (inr (inr e, even)) =
    inr (inr (omega (arith, ap (λ (t : ℕ). t * c) e)), even)

nearest_common :
    (x : ℕ)
    → 102 * 2 ^ 23 ≤ x
    → x < 113 * 2 ^ 23
    → NearestEven (2 ^ 23) (common x) (f32_to_f16_rne x)
nearest_common x low high =
    let c = 2 ^ (x / 2 ^ 23 - 102) in
    let e : 125 - x / 2 ^ 23 + (x / 2 ^ 23 - 102) ≡ 23 = omega arith in
    let unit : 2 ^ (125 - x / 2 ^ 23) * c ≡ 2 ^ 23 =
      sym (two_pow_add (125 - x / 2 ^ 23) (x / 2 ^ 23 - 102)) ∙ ap (λ (t : ℕ). 2 ^ t) e in
    rw unit at
      (nearest_scale _ _ _ c (one-le-pow _ 2 (omega arith)) (below_normal_NearestEven x low high))

common_mono : (x y : ℕ) → 102 * 2 ^ 23 ≤ x → x ≤ y → common x ≤ common y
common_mono x y low h = elim (dec_lt (x / 2 ^ 23) (y / 2 ^ 23)) [
  | yes less ↦
      let c = 2 ^ (x / 2 ^ 23 - 102) in
      let step : 2 ^ suc (x / 2 ^ 23 - 102) ≤ 2 ^ (y / 2 ^ 23 - 102) =
        pow-le-pow_right (omega arith) {i = suc (x / 2 ^ 23 - 102)} {j = y / 2 ^ 23 - 102}
          (omega arith) in
      let left : (x % 2 ^ 23 + 2 ^ 23) * c ≤ 2 ^ 24 * c = mul_mono_left _ _ c (omega arith) in
      let right : 2 ^ 23 * 2 ^ (y / 2 ^ 23 - 102) ≤ common y =
        mul_mono_left _ _ (2 ^ (y / 2 ^ 23 - 102)) (omega arith) in
      omega (arith, pow-suc 2 (x / 2 ^ 23 - 102))
  | no same ↦
      let e : x / 2 ^ 23 ≡ y / 2 ^ 23 = omega arith in rw e (mul_mono_left _ _ _ (omega arith))
]

common-lt : (x : ℕ) → 102 * 2 ^ 23 ≤ x → x < 113 * 2 ^ 23 → common x ≤ 2 ^ 34
common-lt x low high =
    let c : 2 ^ (x / 2 ^ 23 - 102) ≤ 2 ^ 10 =
      pow-le-pow_right (omega arith) {i = x / 2 ^ 23 - 102} {j = 10} (omega arith) in
    le_trans (mul_mono (x % 2 ^ 23 + 2 ^ 23) _ _ c) (omega arith)

below_normal-le : (x : ℕ) → 102 * 2 ^ 23 ≤ x → x < 113 * 2 ^ 23 → f32_to_f16_rne x ≤ 1024
below_normal-le x low high = ground (arith, nearest_common x low high, common-lt x low high)

in_range_bounds :
    (x : ℕ)
    → 113 * 2 ^ 23 ≤ x
    → x < 143 * 2 ^ 23
    → (1024 ≤ f32_to_f16_rne x) × (f32_to_f16_rne x ≤ 0x7c00)
in_range_bounds x low high = ground (arith, in_range_NearestEven x low high)

-- The conversion keeps the order of all patterns with a clear sign, up to infinity: across the
-- underflow, subnormal, normal and overflow ranges of the result.
pub f32_to_f16_rne_mono : (x y : ℕ) → x ≤ y → y ≤ 0x7f800000 → f32_to_f16_rne x ≤ f32_to_f16_rne y
f32_to_f16_rne_mono x y h top = elim (dec_lt x (102 * 2 ^ 23)) [
  | yes under ↦ omega (arith, f16_underflow x under)
  | no x102 ↦ elim (dec_lt x (113 * 2 ^ 23)) [
    | yes x113 ↦ elim (dec_lt y (113 * 2 ^ 23)) [
      | yes y113 ↦
          nearest_mono (2 ^ 23) (common x) (common y) _ _ (omega arith)
            (common_mono x y (omega arith) h) (nearest_common x (omega arith) x113)
            (nearest_common y (omega arith) y113)
      | no y113 ↦ le_trans (below_normal-le x (omega arith) x113) (above y (omega arith) top)
    ]
    | no x113 ↦ elim (dec_lt y (143 * 2 ^ 23)) [
      | yes y143 ↦
          nearest_mono (2 ^ 12) (x - 112 * 2 ^ 23) (y - 112 * 2 ^ 23) _ _ (omega arith)
            (omega arith) (in_range_NearestEven x (omega arith) (omega arith))
            (in_range_NearestEven y (omega arith) y143)
      | no y143 ↦
          omega (arith, f16_overflow y (omega arith) top, at_most x (omega arith) (omega arith))
    ]
  ]
]
  where
    above : (z : ℕ) → 113 * 2 ^ 23 ≤ z → z ≤ 0x7f800000 → 1024 ≤ f32_to_f16_rne z
    above z low top' = elim (dec_lt z (143 * 2 ^ 23)) [
      | yes z143 ↦ (in_range_bounds z low z143).0
      | no z143 ↦ omega (arith, f16_overflow z (omega arith) top')
    ]

    at_most : (z : ℕ) → 113 * 2 ^ 23 ≤ z → z ≤ 0x7f800000 → f32_to_f16_rne z ≤ 0x7c00
    at_most z low top' = elim (dec_lt z (143 * 2 ^ 23)) [
      | yes z143 ↦ (in_range_bounds z low z143).1
      | no z143 ↦ omega (arith, f16_overflow z (omega arith) top')
    ]
