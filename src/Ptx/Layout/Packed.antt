-- ===== src/Ptx/Layout/Packed.antt =====
-- The variables of a layout stand one behind the other, aligned, within its size.
use native.Mathlib.Nat.{mul-mod_left, div-add-mod', mod-lt}
use rouge_v.Base.{
  ℕ, ◌+◌, ◌-◌, ◌*◌, ◌/◌, ◌%◌, ◌^◌, ◌≤◌, ◌<◌, ◌≡◌, Bool, true, false, List, [], ◌∷◌, ◌++◌, arith,
  Bool-cases, inl, inr, ltb,
}
use rouge_v.Ptx.Layout.{
  align_up, int_div, no_brackets, unsized, sized, Token, dot_align, dot_type, variable,
  PtxSharedVar, PtxLocalVar, Shared, Local, shared_align, local_align_of, has_shared, has_local,
  place_shared, shared_tokens, parse_shared_decl, place_local, local_tokens, parse_local_decl,
}

-- What `align_up` gives where its sum is in the range of an `int`.
record Aligned (v a : ℕ) : Type 0 where
  le : v ≤ align_up v a
  aligned : align_up v a % a ≡ 0
  within : align_up v a ≤ v + a - 1

align_up-exact : (v a : ℕ) → 0 < a → v + a - 1 < 2 ^ 31 → align_up v a ≡ (v + a - 1) / a * a
unfolding align_up int_div
align_up-exact v a h room =
    let sum : (v + a + 2 ^ 32 - 1) % 2 ^ 32 ≡ v + a - 1 = omega arith in
    let small : ltb (v + a - 1) (2 ^ 31) ≡ true = ground arith in
    let q = div-add-mod' (v + a - 1) a in rw (sum, small) (omega (arith, q, room))

align_up-Aligned : (v a : ℕ) → 0 < a → v + a - 1 < 2 ^ 31 → Aligned v a
align_up-Aligned v a h room =
    let exact = align_up-exact v a h room in
    let q = div-add-mod' (v + a - 1) a in
    record {
      le = omega (arith, exact, q, mod-lt (v + a - 1) h);
      aligned = rw exact (mul-mod_left ((v + a - 1) / a) a);
      within = omega (arith, exact, q);
    }

-- The bytes that a variable takes.
pub record Region : Type 0 where
  pub start : ℕ
  pub unit : ℕ
  pub extent : ℕ

-- From `from` on, each variable starts behind the one before, at a multiple of its alignment, and
-- the last one ends within `size`.
abbrev pub IsPacked : {V : Type 0} → (V → Region) → ℕ → List V → ℕ → Type 0
IsPacked region from [] size = from ≤ size
IsPacked region from (v ∷ vs) size =
    (from ≤ (region v).start)
    × ((region v).start % (region v).unit ≡ 0)
    × IsPacked region ((region v).start + (region v).extent) vs size

append-IsPacked :
    {V : Type 0} (region : V → Region) (from : ℕ) (vs : List V) (v : V) (size size' : ℕ)
    → IsPacked region from vs size
    → size ≤ (region v).start
    → (region v).start % (region v).unit ≡ 0
    → (region v).start + (region v).extent ≤ size'
    → IsPacked region from (vs ++ (v ∷ [])) size'
append-IsPacked region from [] v size size' p behind aligned within = (omega arith, aligned, within)
append-IsPacked region from (u ∷ vs) v size size' p behind aligned within = (
  p.0,
  p.1,
  append-IsPacked region ((region u).start + (region u).extent) vs v size size' p.2 behind aligned
      within,
)

grow-IsPacked :
    {V : Type 0} (region : V → Region) (from : ℕ) (vs : List V) (size size' : ℕ)
    → IsPacked region from vs size
    → size ≤ size'
    → IsPacked region from vs size'
grow-IsPacked region from [] size size' p more = omega arith
grow-IsPacked region from (u ∷ vs) size size' p more =
    (p.0, p.1, grow-IsPacked region ((region u).start + (region u).extent) vs size size' p.2 more)

-- Each type of a declaration has at least one byte, as `shared_elem_bytes` gives.
abbrev pub IsTyped : {Name : Type 0} → List (Token Name) → Type 0
IsTyped [] = Unit {0}
IsTyped (dot_align n ∷ ts) = IsTyped ts
IsTyped (dot_type n ∷ ts) = (0 < n) × IsTyped ts
IsTyped (variable name b ∷ ts) = IsTyped ts

abbrev pub shared_region : {Name : Type 0} → PtxSharedVar Name → Region
shared_region v = record { start = v.offset; unit = v.align; extent = v.elem_bytes * v.count }

abbrev pub local_region : {Name : Type 0} → PtxLocalVar Name → Region
local_region v = record { start = v.local_offset; unit = v.local_align; extent = v.bytes }

abbrev pub SharedPacked : {Name : Type 0} → Shared Name → Type 0
SharedPacked s = IsPacked shared_region 0 s.shared_vars s.shared_size

abbrev pub LocalPacked : {Name : Type 0} → Local Name → Type 0
LocalPacked s = IsPacked local_region 0 s.local_vars s.local_size

-- The bytes that a declaration may take: what each variable has, and what its alignment may skip.
abbrev pub shared_demand : {Name : Type 0} → ℕ → ℕ → List (Token Name) → ℕ
shared_demand align e [] = 15
shared_demand align e (dot_align n ∷ ts) = shared_demand n e ts
shared_demand align e (dot_type n ∷ ts) = shared_demand align n ts
shared_demand align e (variable name no_brackets ∷ ts) = shared_demand align e ts
shared_demand align e (variable name unsized ∷ ts) = shared_align align e + shared_demand align e ts
shared_demand align e (variable name (sized n) ∷ ts) =
    shared_align align e + e * n + shared_demand align e ts

abbrev pub local_demand : {Name : Type 0} → ℕ → ℕ → List (Token Name) → ℕ
local_demand align e [] = 0
local_demand align e (dot_align n ∷ ts) = local_demand n e ts
local_demand align e (dot_type n ∷ ts) = local_demand align n ts
local_demand align e (variable name no_brackets ∷ ts) =
    local_align_of align e + e + local_demand align e ts
local_demand align e (variable name unsized ∷ ts) = local_align_of align e + local_demand align e ts
local_demand align e (variable name (sized n) ∷ ts) =
    local_align_of align e + e * n + local_demand align e ts

module _ {Name : Type 0} (same_name : Name → Name → Bool) where
  -- A variable that has room.
  place_shared-SharedPacked :
      (align elem_bytes : ℕ) (name : Name) (count : ℕ) (dynamic : Bool) (s : Shared Name)
      → 0 < elem_bytes
      → s.shared_size + shared_align align elem_bytes + elem_bytes * count < 2 ^ 31
      → SharedPacked s
      → SharedPacked (place_shared same_name align elem_bytes name count dynamic s)
        × ((place_shared same_name align elem_bytes name count dynamic s).shared_size
            ≤ s.shared_size + shared_align align elem_bytes + elem_bytes * count)
  unfolding place_shared
  place_shared-SharedPacked align elem_bytes name count dynamic s positive room p =
      elim (Bool-cases (has_shared same_name name s.shared_vars)) [
        | inl known ↦ rw known (p, omega arith)
        | inr new ↦
            let a = shared_align align elem_bytes in
            let a_positive : 0 < a = ground arith in
            let up = align_up-Aligned s.shared_size a a_positive (omega (arith, room)) in
            let end : (align_up s.shared_size a + elem_bytes * count) % 2 ^ 32
                ≡ align_up s.shared_size a + elem_bytes * count =
              omega (arith, up.within, room) in
            rw new (
              append-IsPacked shared_region 0 s.shared_vars _ s.shared_size _ p up.le up.aligned
                  (omega (arith, end)),
              omega (arith, end, up.within),
            )
      ]

  shared_tokens-SharedPacked :
      (align elem_bytes : ℕ) (ts : List (Token Name)) (s : Shared Name)
      → 0 < elem_bytes
      → IsTyped ts
      → s.shared_size + shared_demand align elem_bytes ts < 2 ^ 31
      → SharedPacked s
      → SharedPacked (shared_tokens same_name align elem_bytes ts s)
        × ((shared_tokens same_name align elem_bytes ts s).shared_size + 15
            ≤ s.shared_size + shared_demand align elem_bytes ts)
  unfolding shared_tokens
  shared_tokens-SharedPacked align e [] s positive typed room p = (p, omega arith)
  shared_tokens-SharedPacked align e (dot_align n ∷ ts) s positive typed room p =
      shared_tokens-SharedPacked n e ts s positive typed room p
  shared_tokens-SharedPacked align e (dot_type n ∷ ts) s positive typed room p =
      shared_tokens-SharedPacked align n ts s typed.0 typed.1 room p
  shared_tokens-SharedPacked align e (variable name no_brackets ∷ ts) s positive typed room p =
      shared_tokens-SharedPacked align e ts s positive typed room p
  shared_tokens-SharedPacked align e (variable name unsized ∷ ts) s positive typed room p =
      let here = place_shared-SharedPacked align e name 0 true s positive (omega (arith, room)) p in
      let rest =
        shared_tokens-SharedPacked align e ts _ positive typed (omega (arith, room, here.1))
          here.0 in
      (rest.0, omega (arith, here.1, rest.1))
  shared_tokens-SharedPacked align e (variable name (sized n) ∷ ts) s positive typed room p =
      let here =
        place_shared-SharedPacked align e name n false s positive (omega (arith, room)) p in
      let rest =
        shared_tokens-SharedPacked align e ts _ positive typed (omega (arith, room, here.1))
          here.0 in
      (rest.0, omega (arith, here.1, rest.1))

  pub parse_shared_decl-size :
      (ts : List (Token Name)) (s : Shared Name)
      → IsTyped ts
      → s.shared_size + shared_demand 0 4 ts < 2 ^ 31
      → SharedPacked s
      → (parse_shared_decl same_name ts s).shared_size ≤ s.shared_size + shared_demand 0 4 ts
  unfolding parse_shared_decl
  parse_shared_decl-size ts s typed room p =
      let s' = shared_tokens same_name 0 4 ts s in
      let all = (shared_tokens-SharedPacked 0 4 ts s (omega arith) typed room p).1 in
      let up = align_up-Aligned s'.shared_size 16 (omega arith) (omega (arith, all, room)) in
      omega (arith, all, up.within)

  -- A `.shared` declaration whose types have at least one byte, and whose variables with their
  -- alignments fit in an `int` behind the size so far, keeps the variables of the scratchpad one
  -- behind the other, each at a multiple of its alignment, the last within the size, and leaves a
  -- size that is a multiple of 16.
  pub parse_shared_decl-SharedPacked :
      (ts : List (Token Name)) (s : Shared Name)
      → IsTyped ts
      → s.shared_size + shared_demand 0 4 ts < 2 ^ 31
      → SharedPacked s
      → SharedPacked (parse_shared_decl same_name ts s)
        × ((parse_shared_decl same_name ts s).shared_size % 16 ≡ 0)
  unfolding parse_shared_decl
  parse_shared_decl-SharedPacked ts s typed room p =
      let s' = shared_tokens same_name 0 4 ts s in
      let all = shared_tokens-SharedPacked 0 4 ts s (omega arith) typed room p in
      let up = align_up-Aligned s'.shared_size 16 (omega arith) (omega (arith, all.1, room)) in
      (grow-IsPacked shared_region 0 s'.shared_vars s'.shared_size _ all.0 up.le, up.aligned)

  place_local-LocalPacked :
      (align elem_bytes : ℕ) (name : Name) (bytes : ℕ) (s : Local Name)
      → 0 < elem_bytes
      → s.local_size + local_align_of align elem_bytes + bytes < 2 ^ 31
      → LocalPacked s
      → LocalPacked (place_local same_name align elem_bytes name bytes s)
        × ((place_local same_name align elem_bytes name bytes s).local_size
            ≤ s.local_size + local_align_of align elem_bytes + bytes)
  unfolding place_local
  place_local-LocalPacked align elem_bytes name bytes s positive room p =
      elim (Bool-cases (has_local same_name name s.local_vars)) [
        | inl known ↦ rw known (p, omega arith)
        | inr new ↦
            let a = local_align_of align elem_bytes in
            let a_positive : 0 < a = ground arith in
            let up = align_up-Aligned s.local_size a a_positive (omega (arith, room)) in
            let end : (align_up s.local_size a + bytes) % 2 ^ 32 ≡ align_up s.local_size a + bytes =
              omega (arith, up.within, room) in
            rw new (
              append-IsPacked local_region 0 s.local_vars _ s.local_size _ p up.le up.aligned
                  (omega (arith, end)),
              omega (arith, end, up.within),
            )
      ]

  local_tokens-LocalPacked :
      (align elem_bytes : ℕ) (ts : List (Token Name)) (s : Local Name)
      → 0 < elem_bytes
      → IsTyped ts
      → s.local_size + local_demand align elem_bytes ts < 2 ^ 31
      → LocalPacked s
      → LocalPacked (local_tokens same_name align elem_bytes ts s)
        × ((local_tokens same_name align elem_bytes ts s).local_size
            ≤ s.local_size + local_demand align elem_bytes ts)
  unfolding local_tokens
  local_tokens-LocalPacked align e [] s positive typed room p = (p, omega arith)
  local_tokens-LocalPacked align e (dot_align n ∷ ts) s positive typed room p =
      local_tokens-LocalPacked n e ts s positive typed room p
  local_tokens-LocalPacked align e (dot_type n ∷ ts) s positive typed room p =
      local_tokens-LocalPacked align n ts s typed.0 typed.1 room p
  local_tokens-LocalPacked align e (variable name no_brackets ∷ ts) s positive typed room p =
      let here = place_local-LocalPacked align e name e s positive (omega (arith, room)) p in
      let rest =
        local_tokens-LocalPacked align e ts _ positive typed (omega (arith, room, here.1)) here.0 in
      (rest.0, omega (arith, here.1, rest.1))
  local_tokens-LocalPacked align e (variable name unsized ∷ ts) s positive typed room p =
      let none : e * 0 ≡ 0 = omega arith in
      let here = place_local-LocalPacked align e name (e * 0) s positive (omega (arith, room)) p in
      let rest =
        local_tokens-LocalPacked align e ts _ positive typed (omega (arith, room, here.1)) here.0 in
      (rest.0, omega (arith, none, here.1, rest.1))
  local_tokens-LocalPacked align e (variable name (sized n) ∷ ts) s positive typed room p =
      let small : e * n % 2 ^ 32 ≡ e * n = omega (arith, room) in
      let here =
        place_local-LocalPacked align e name (e * n % 2 ^ 32) s positive
          (omega (arith, room, small)) p in
      let rest =
        local_tokens-LocalPacked align e ts _ positive typed (omega (arith, room, small, here.1))
          here.0 in
      (rest.0, omega (arith, small, here.1, rest.1))

  -- A `.local` declaration whose types have at least one byte, and whose variables with their
  -- alignments fit in an `int` behind the size so far, keeps the variables of a thread's depot one
  -- behind the other, each at a multiple of its alignment, the last within the size.
  pub parse_local_decl-LocalPacked :
      (ts : List (Token Name)) (s : Local Name)
      → IsTyped ts
      → s.local_size + local_demand 0 1 ts < 2 ^ 31
      → LocalPacked s
      → LocalPacked (parse_local_decl same_name ts s)
  unfolding parse_local_decl
  parse_local_decl-LocalPacked ts s typed room p =
      (local_tokens-LocalPacked 0 1 ts s (omega arith) typed room p).0

  pub parse_local_decl-size :
      (ts : List (Token Name)) (s : Local Name)
      → IsTyped ts
      → s.local_size + local_demand 0 1 ts < 2 ^ 31
      → LocalPacked s
      → (parse_local_decl same_name ts s).local_size ≤ s.local_size + local_demand 0 1 ts
  unfolding parse_local_decl
  parse_local_decl-size ts s typed room p =
      (local_tokens-LocalPacked 0 1 ts s (omega arith) typed room p).1
