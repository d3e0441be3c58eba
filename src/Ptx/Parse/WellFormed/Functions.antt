-- ===== src/Ptx/Parse/WellFormed/Functions.antt =====
-- Well-formed functions, and what declarations, instructions and labels keep.
use Prim.Native.String.{String}
use rouge_v.Base.{
  ℕ, ◌+◌, ◌^◌, ◌<◌, ◌&&◌, if◌then◌else◌, ◌≤◌, List, [], ◌∷◌, ◌++◌, Option, none, some, arith,
  length, length-append, Bool-cases, inl, inr, if_elim,
}
use rouge_v.Base.Text.{same_name, starts_with}
use rouge_v.Base.Chars.{trim, split, contains}
use rouge_v.Ptx.Parse.{strip_comment}
use rouge_v.Base.Assoc.{assign_name}
use rouge_v.Ptx.Layout.{Token, Brackets}
use rouge_v.Ptx.Layout.Packed.{
  IsTyped, SharedPacked, LocalPacked, parse_shared_decl-SharedPacked, parse_local_decl-LocalPacked,
  parse_shared_decl-size, parse_local_decl-size, shared_demand, local_demand,
}
use rouge_v.Ptx.Program.{PtxInstruction, PtxFunction}
use rouge_v.Ptx.Params.Packed.{SignaturePacked}
use rouge_v.Ptx.Parse.Declarations.{
  shared_elem_bytes, variable_token, add_variable, drop_comma, tokens, decl_tokens, declare_shared,
  declare_local, without_extern, statement,
}
use rouge_v.Ptx.Parse.Module.{empty_function, add_instruction, add_label}

-- The values of an association list are below a bound.
abbrev pub IsBelow : ℕ → List (String × ℕ) → Type 0
IsBelow bound [] = Unit {0}
IsBelow bound ((key, n) ∷ m) = (n < bound) × IsBelow bound m

pub IsBelow-le : (a b : ℕ) (m : List (String × ℕ)) → a ≤ b → IsBelow a m → IsBelow b m
IsBelow-le a b [] le h = tt
IsBelow-le a b ((key, n) ∷ m) le h = (omega (arith, h.0), IsBelow-le a b m le h.1)

pub assign_name-IsBelow :
    (bound : ℕ) (key : String) (n : ℕ) (m : List (String × ℕ))
    → n < bound
    → IsBelow bound m
    → IsBelow bound (assign_name key n m)
unfolding assign_name
assign_name-IsBelow bound key n [] below h = (below, tt)
assign_name-IsBelow bound key n ((key', n') ∷ m) below h = elim (Bool-cases (same_name key' key)) [
  | inl same ↦ rw same (below, h.1)
  | inr other ↦ rw other (h.0, assign_name-IsBelow bound key n m below h.1)
]

-- The labels are places of the body or its end, and the parameters and the variables of the
-- scratchpad and the depot stand one behind the other, within their sizes, which are at most `a`
-- and `b`.
pub record IsWellFormed (a b : ℕ) (fn : PtxFunction) : Type 0 where
  pub labels_within : IsBelow (length fn.body + 1) fn.labels
  pub signature_packed : SignaturePacked fn
  pub shared_packed :
      SharedPacked (record { shared_vars = fn.shared_vars; shared_size = fn.shared_size })
  pub local_packed : LocalPacked (record { local_vars = fn.local_vars; local_size = fn.local_size })
  pub shared_room : fn.shared_size ≤ a
  pub local_room : fn.local_size ≤ b

abbrev pub IfSome : (PtxFunction → Type 0) → Option PtxFunction → Type 0
IfSome P none = Unit {0}
IfSome P (some fn) = P fn

module _ {a b : ℕ} where
  pub empty_function-IsWellFormed : (name : String) → IsWellFormed a b (empty_function name)
  empty_function-IsWellFormed name = record {
    labels_within = tt;
    signature_packed = omega arith;
    shared_packed = omega arith;
    local_packed = omega arith;
    shared_room = omega arith;
    local_room = omega arith;
  }

shared_elem_bytes-pos : (type : String) → 0 < shared_elem_bytes type
unfolding shared_elem_bytes
shared_elem_bytes-pos type = ground arith

add_variable-IsTyped :
    (o : Option (String × Brackets)) (ts : List (Token String))
    → IsTyped ts
    → IsTyped (add_variable o ts)
add_variable-IsTyped none ts typed = typed
add_variable-IsTyped (some (name, b)) ts typed = typed

tokens-IsTyped : (ws : List String) → IsTyped (tokens ws)
unfolding tokens
tokens-IsTyped [] = tt
tokens-IsTyped (tok ∷ []) = if_elim IsTyped (same_name tok ".align") _ _ tt (
    if_elim IsTyped (starts_with tok ".") _ _ (shared_elem_bytes-pos tok, tt)
      (add_variable-IsTyped (variable_token (drop_comma tok)) [] tt))
tokens-IsTyped (tok ∷ tok' ∷ toks) =
    let rest = tokens-IsTyped (tok' ∷ toks) in
    if_elim IsTyped (same_name tok ".align") _ _ (tokens-IsTyped toks) (
      if_elim IsTyped (starts_with tok ".") _ _ (shared_elem_bytes-pos tok, rest)
        (add_variable-IsTyped (variable_token (drop_comma tok)) _ rest))

decl_tokens-IsTyped : (s : String) → IsTyped (decl_tokens s)
unfolding decl_tokens
decl_tokens-IsTyped s = tokens-IsTyped _

pub IsWellFormed-le :
    {a b a' b' : ℕ} (fn : PtxFunction)
    → a ≤ a'
    → b ≤ b'
    → IsWellFormed a b fn
    → IsWellFormed a' b' fn
IsWellFormed-le fn la lb w = record {
  labels_within = w.labels_within;
  signature_packed = w.signature_packed;
  shared_packed = w.shared_packed;
  local_packed = w.local_packed;
  shared_room = omega (arith, la, w.shared_room);
  local_room = omega (arith, lb, w.local_room);
}

-- What the declaration of a line may take, and what the declarations of a text may.
abbrev pub shared_cost : String → ℕ
shared_cost line = shared_demand 0 4 (decl_tokens (without_extern (statement line)))

abbrev pub local_cost : String → ℕ
local_cost line = local_demand 0 1 (decl_tokens (statement line))

abbrev pub line_shared : String → ℕ
line_shared s =
    (if starts_with s ".extern" && contains ".shared" s then shared_cost s else 0)
    + (if starts_with s ".shared" then shared_cost s else 0)

abbrev pub line_local : String → ℕ
line_local s = if starts_with s ".local" then local_cost s else 0

-- A line of a text, as the parser reads it.
abbrev pub text_cost : (String → ℕ) → List String → ℕ
text_cost cost [] = 0
text_cost cost (line ∷ lines) = cost (trim (strip_comment line)) + text_cost cost lines

-- The variables that the text declares, with their alignments, fit in an `int`.
pub record HasRoom (image : String) : Type 0 where
  pub shared_fits : text_cost line_shared (split 10 image) < 2 ^ 31
  pub local_fits : text_cost line_local (split 10 image) < 2 ^ 31

module _ {a b : ℕ} where
  pub declare_shared-IsWellFormed :
      (line : String) (fn : PtxFunction)
      → a + shared_cost line < 2 ^ 31
      → IsWellFormed a b fn
      → IsWellFormed (a + shared_cost line) b (declare_shared line fn)
  unfolding declare_shared
  declare_shared-IsWellFormed line fn room w =
      let ts = decl_tokens (without_extern (statement line)) in
      let typed = decl_tokens-IsTyped (without_extern (statement line)) in
      let room' : fn.shared_size + shared_cost line < 2 ^ 31 = omega (arith, room, w.shared_room) in
      record {
        labels_within = w.labels_within;
        signature_packed = w.signature_packed;
        shared_packed =
            (parse_shared_decl-SharedPacked same_name ts _ typed room' w.shared_packed).0;
        local_packed = w.local_packed;
        shared_room = omega (
          arith,
          w.shared_room,
          parse_shared_decl-size same_name ts _ typed room' w.shared_packed,
        );
        local_room = w.local_room;
      }

  pub declare_local-IsWellFormed :
      (line : String) (fn : PtxFunction)
      → b + local_cost line < 2 ^ 31
      → IsWellFormed a b fn
      → IsWellFormed a (b + local_cost line) (declare_local line fn)
  unfolding declare_local
  declare_local-IsWellFormed line fn room w =
      let ts = decl_tokens (statement line) in
      let typed = decl_tokens-IsTyped (statement line) in
      let room' : fn.local_size + local_cost line < 2 ^ 31 = omega (arith, room, w.local_room) in
      record {
        labels_within = w.labels_within;
        signature_packed = w.signature_packed;
        shared_packed = w.shared_packed;
        local_packed = parse_local_decl-LocalPacked same_name ts _ typed room' w.local_packed;
        shared_room = w.shared_room;
        local_room =
            omega (
              arith,
              w.local_room,
              parse_local_decl-size same_name ts _ typed room' w.local_packed,
            );
      }

module _ {a b : ℕ} where
  pub add_instruction-IsWellFormed :
      (i : PtxInstruction) (fn : PtxFunction)
      → IsWellFormed a b fn
      → IsWellFormed a b (add_instruction i fn)
  add_instruction-IsWellFormed i fn w = record {
    labels_within =
        IsBelow-le (length fn.body + 1) (length (fn.body ++ (i ∷ [])) + 1) fn.labels
          (omega (arith, length-append fn.body (i ∷ []))) w.labels_within;
    signature_packed = w.signature_packed;
    shared_packed = w.shared_packed;
    local_packed = w.local_packed;
    shared_room = w.shared_room;
    local_room = w.local_room;
  }

  pub add_label-IsWellFormed :
      (label : String) (fn : PtxFunction)
      → IsWellFormed a b fn
      → IsWellFormed a b (add_label label fn)
  add_label-IsWellFormed label fn w = record {
    labels_within =
        assign_name-IsBelow (length fn.body + 1) label (length fn.body) fn.labels (omega arith)
          w.labels_within;
    signature_packed = w.signature_packed;
    shared_packed = w.shared_packed;
    local_packed = w.local_packed;
    shared_room = w.shared_room;
    local_room = w.local_room;
  }
