-- ===== src/Ptx/Layout.antt =====
-- software/rouge-ptx/ptx.cpp: `parse_shared_decl` and `parse_local_decl`, the layout of `.shared`
-- and `.local` variables. A declaration is the tokens behind its first word; a token is what the
-- code reads of it; a variable without a name, or with a bracket that does not close, is left out
-- of the tokens, since the code passes over it. An `int` is its pattern of 32 bits; a result that
-- leaves the range, which C++ leaves undefined, wraps around.
pub mod Packed
mod Examples
use rouge_v.Base.{
  ℕ, ◌+◌, ◌-◌, ◌*◌, ◌/◌, ◌%◌, ◌^◌, Bool, true, false, ◌&&◌, ◌||◌, List, [], ◌∷◌, ◌++◌, leb, ltb,
  if◌then◌else◌,
}

-- `n > 0`.
abbrev pub is_positive : ℕ → Bool
is_positive n = ltb 0 n && ltb n (2 ^ 31)

-- `v / a` for a positive `a`: towards 0.
unfoldable pub int_div : ℕ → ℕ → ℕ
int_div v a = if ltb v (2 ^ 31) then v / a else (2 ^ 32 - (2 ^ 32 - v) / a) % 2 ^ 32

unfoldable pub align_up : ℕ → ℕ → ℕ
align_up v a = int_div ((v + a + 2 ^ 32 - 1) % 2 ^ 32) a * a % 2 ^ 32

-- Behind the name of a variable: nothing, `[]`, or `[n]`.
pub data Brackets : Type 0 where
  no_brackets : Brackets
  unsized : Brackets
  sized : ℕ → Brackets

-- `.align n`, a type as its `shared_elem_bytes`, or a variable.
pub data Token (Name : Type 0) : Type 0 where
  dot_align : ℕ → Token Name
  dot_type : ℕ → Token Name
  variable : Name → Brackets → Token Name

pub record PtxSharedVar (Name : Type 0) : Type 0 where
  pub name : Name
  pub align : ℕ
  pub elem_bytes : ℕ
  pub count : ℕ
  pub offset : ℕ
  pub dynamic : Bool

pub record PtxLocalVar (Name : Type 0) : Type 0 where
  pub local_name : Name
  pub local_align : ℕ
  pub bytes : ℕ
  pub local_offset : ℕ

-- `sharedVars` with `sharedSize`, and `localVars` with `localSize`.
pub record Shared (Name : Type 0) : Type 0 where
  pub shared_vars : List (PtxSharedVar Name)
  pub shared_size : ℕ

pub record Local (Name : Type 0) : Type 0 where
  pub local_vars : List (PtxLocalVar Name)
  pub local_size : ℕ

-- `align > 0 ? align : (elemBytes >= 8 ? 8 : elemBytes)`.
abbrev pub shared_align : ℕ → ℕ → ℕ
shared_align align elem_bytes =
    if is_positive align then align else if leb 8 elem_bytes then 8 else elem_bytes

abbrev pub local_align_of : ℕ → ℕ → ℕ
local_align_of align elem_bytes = if is_positive align then align else elem_bytes

module _ {Name : Type 0} (same_name : Name → Name → Bool) where
  -- `sharedIndex.find(v.name) != end()`.
  abbrev pub has_shared : Name → List (PtxSharedVar Name) → Bool
  has_shared name [] = false
  has_shared name (v ∷ vs) = same_name name v.name || has_shared name vs

  abbrev pub has_local : Name → List (PtxLocalVar Name) → Bool
  has_local name [] = false
  has_local name (v ∷ vs) = same_name name v.local_name || has_local name vs

  unfoldable pub place_shared : ℕ → ℕ → Name → ℕ → Bool → Shared Name → Shared Name
  place_shared align elem_bytes name count dynamic s =
      if has_shared name s.shared_vars
      then s
      else let a = shared_align align elem_bytes in
        let offset = align_up s.shared_size a in
        record {
          shared_vars =
              s.shared_vars
              ++ (record {
                name = name;
                align = a;
                elem_bytes = elem_bytes;
                count = count;
                offset = offset;
                dynamic = dynamic;
              }
                  ∷ []);
          shared_size = (offset + elem_bytes * count) % 2 ^ 32;
        }

  -- A name without brackets stays empty, and the variable is passed over.
  unfoldable pub shared_tokens : ℕ → ℕ → List (Token Name) → Shared Name → Shared Name
  shared_tokens align elem_bytes [] s = s
  shared_tokens align elem_bytes (dot_align n ∷ ts) s = shared_tokens n elem_bytes ts s
  shared_tokens align elem_bytes (dot_type n ∷ ts) s = shared_tokens align n ts s
  shared_tokens align elem_bytes (variable name no_brackets ∷ ts) s =
      shared_tokens align elem_bytes ts s
  shared_tokens align elem_bytes (variable name unsized ∷ ts) s =
      shared_tokens align elem_bytes ts (place_shared align elem_bytes name 0 true s)
  shared_tokens align elem_bytes (variable name (sized n) ∷ ts) s =
      shared_tokens align elem_bytes ts (place_shared align elem_bytes name n false s)

  unfoldable pub parse_shared_decl : List (Token Name) → Shared Name → Shared Name
  parse_shared_decl tokens s =
      let s' = shared_tokens 0 4 tokens s in record s' { shared_size = align_up s'.shared_size 16 }

  pub place_local : ℕ → ℕ → Name → ℕ → Local Name → Local Name
  place_local align elem_bytes name bytes s =
      if has_local name s.local_vars
      then s
      else let a = local_align_of align elem_bytes in
        let offset = align_up s.local_size a in
        record {
          local_vars =
              s.local_vars
              ++ (record {
                local_name = name;
                local_align = a;
                bytes = bytes;
                local_offset = offset;
              }
                  ∷ []);
          local_size = (offset + bytes) % 2 ^ 32;
        }

  -- `atoi` of empty brackets is 0.
  abbrev pub local_bytes : ℕ → Brackets → ℕ
  local_bytes elem_bytes no_brackets = elem_bytes
  local_bytes elem_bytes unsized = elem_bytes * 0
  local_bytes elem_bytes (sized n) = elem_bytes * n % 2 ^ 32

  pub local_tokens : ℕ → ℕ → List (Token Name) → Local Name → Local Name
  local_tokens align elem_bytes [] s = s
  local_tokens align elem_bytes (dot_align n ∷ ts) s = local_tokens n elem_bytes ts s
  local_tokens align elem_bytes (dot_type n ∷ ts) s = local_tokens align n ts s
  local_tokens align elem_bytes (variable name b ∷ ts) s =
      local_tokens align elem_bytes ts
        (place_local align elem_bytes name (local_bytes elem_bytes b) s)

  pub parse_local_decl : List (Token Name) → Local Name → Local Name
  parse_local_decl tokens s = local_tokens 0 1 tokens s
