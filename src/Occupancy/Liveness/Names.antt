-- ===== src/Occupancy/Liveness/Names.antt =====
-- Which names a list mentions: every name that an instruction defines or uses is a register.
use Prim.Native.String.{String}
use rouge_v.Base.{
  ℕ, zero, suc, ◌≡◌, true, ◌||◌, List, [], ◌∷◌, ◌++◌, some, get_elem?, arith, refl, Bool-cases, inl,
  inr,
}
use rouge_v.Base.Text.{same_name, same_name_iff}
use rouge_v.Occupancy.Liveness.{Effect, mentions, without, distinct, registers}

pub mentions-append :
    (r : String) (xs ys : List String) → mentions r (xs ++ ys) ≡ (mentions r xs || mentions r ys)
mentions-append r [] ys = refl
mentions-append r (x ∷ xs) ys = ground (arith, mentions-append r xs ys)

-- What is taken away is in the list of what goes.
pub mentions-without :
    (r : String) (gone xs : List String)
    → mentions r xs ≡ true
    → mentions r (gone ++ without gone xs) ≡ true
mentions-without r gone [] h = absurd (cc)
mentions-without r gone (x ∷ xs) h =
    let rest = mentions-without r gone xs in
    let split = mentions-append r gone (without gone xs) in
    let split' = mentions-append r gone (without gone (x ∷ xs)) in
    elim (Bool-cases (same_name x r)) [
      | inl same ↦ let e : x ≡ r = (same_name_iff x r).0 same in ground (arith, split', e, same)
      | inr other ↦ ground (arith, split, split', rest)
    ]

pub mentions-distinct :
    (r : String) (xs : List String) → mentions r xs ≡ true → mentions r (distinct xs) ≡ true
unfolding distinct
mentions-distinct r [] h = h
mentions-distinct r (x ∷ xs) h = elim (Bool-cases (same_name x r)) [
  | inl same ↦ let e : x ≡ r = (same_name_iff x r).0 same in ground (arith, e, same)
  | inr other ↦ ground (arith, mentions-distinct r xs)
]

-- A name of one of the effects is a register.
pub mentions-registers :
    (r : String) (es : List Effect) (i : ℕ) (e : Effect)
    → get_elem? es i ≡ some e
    → mentions r (e.defs ++ e.uses) ≡ true
    → mentions r (registers es) ≡ true
unfolding registers
mentions-registers r [] i e found h = absurd (cc)
mentions-registers r (e' ∷ es) zero e found h =
    let fresh = distinct (e'.defs ++ e'.uses) in
    let same : e' ≡ e = cc in
    ground (
      arith,
      same,
      mentions-append r fresh (without fresh (registers es)),
      mentions-distinct r (e'.defs ++ e'.uses),
    )
mentions-registers r (e' ∷ es) (suc i) e found h =
    mentions-without r (distinct (e'.defs ++ e'.uses)) (registers es)
      (mentions-registers r es i e found h)
