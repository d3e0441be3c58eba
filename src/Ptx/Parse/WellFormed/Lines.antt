-- ===== src/Ptx/Parse/WellFormed/Lines.antt =====
-- The lines of a body and the entries of a signature keep a function well formed.
use Prim.Native.String.{String}
use mathlib.Core.Path.{subst}
use rouge_v.Base.{
  sym, ℕ, not, arith, if_case, ◌+◌, ◌≤◌, ◌<◌, ◌^◌, ◌||◌, List, [], ◌∷◌, Option, none, some, ◌==◌,
  ◌≡◌, refl, if◌then◌else◌, if_elim,
}
use rouge_v.Base.Text.{same_name, starts_with}
use rouge_v.Base.Chars.{is_empty, trim}
use rouge_v.Ptx.Program.{PtxFunction}
use rouge_v.Ptx.Params.{param_words, parse_param_entry, parse_param_entries}
use rouge_v.Ptx.Params.Packed.{SignaturePacked, IfParsed, parse_param_entry-SignaturePacked}
use rouge_v.Ptx.Parse.{parse_instruction, Label, find_label, is_blank_or_comment}
use rouge_v.Ptx.Parse.Declarations.{declare_shared, declare_local}
use rouge_v.Ptx.Parse.Module.{
  add_instruction, add_label, label_line, instruction_line, code_line, body_line,
}
use rouge_v.Ptx.Parse.WellFormed.Functions.{
  IsWellFormed, IfSome, declare_shared-IsWellFormed, declare_local-IsWellFormed,
  add_instruction-IsWellFormed, add_label-IsWellFormed, IsWellFormed-le, shared_cost, local_cost,
  line_shared, line_local,
}

module _ {a b : ℕ} where
  instruction_line-IsWellFormed :
      (s : String) (fn : PtxFunction)
      → IsWellFormed a b fn
      → IfSome (IsWellFormed a b) (instruction_line s fn)
  unfolding instruction_line
  instruction_line-IsWellFormed s fn w =
      elim (parse_instruction s)
        as (λ o.
          IfSome (IsWellFormed a b)
            (elim o [ none ↦ none | some i ↦ some (add_instruction i fn) ])) [
              | none ↦ tt
              | some i ↦ add_instruction-IsWellFormed i fn w
            ]

  label_line-IsWellFormed :
      (l : Label) (fn : PtxFunction)
      → IsWellFormed a b fn
      → IfSome (IsWellFormed a b) (label_line l fn)
  unfolding label_line
  label_line-IsWellFormed l fn w =
      if_elim (IfSome (IsWellFormed a b)) (is_empty (trim l.head)) _ _
        (add_label-IsWellFormed l.label fn w)
        (elim (parse_instruction (trim l.head))
          as (λ o.
            IfSome (IsWellFormed a b)
              (elim o [ none ↦ none | some i ↦ some (add_label l.label (add_instruction i fn)) ])) [
                | none ↦ tt
                | some i ↦
                    add_label-IsWellFormed l.label (add_instruction i fn)
                      (add_instruction-IsWellFormed i fn w)
              ])

  code_line-IsWellFormed :
      (s : String) (fn : PtxFunction)
      → IsWellFormed a b fn
      → IfSome (IsWellFormed a b) (code_line s fn)
  unfolding code_line
  code_line-IsWellFormed s fn w =
      elim (find_label s)
        as (λ o. IfSome (IsWellFormed a b) (elim o [
          | none ↦ instruction_line s fn
          | some l ↦ if is_blank_or_comment l.tail then label_line l fn else instruction_line s fn
        ])) [
          | none ↦ instruction_line-IsWellFormed s fn w
          | some l ↦
              if_elim (IfSome (IsWellFormed a b)) (is_blank_or_comment l.tail) _ _
                (label_line-IsWellFormed l fn w) (instruction_line-IsWellFormed s fn w)
        ]

  with_registers-IsWellFormed :
      (regs : List (String × ℕ)) (fn : PtxFunction)
      → IsWellFormed a b fn
      → IsWellFormed a b (record fn { reg_bits = regs })
  with_registers-IsWellFormed regs fn w = record {
    labels_within = w.labels_within;
    signature_packed = w.signature_packed;
    shared_packed = w.shared_packed;
    local_packed = w.local_packed;
    shared_room = w.shared_room;
    local_room = w.local_room;
  }

module _ {a b : ℕ} where
  -- A declaration takes what its line may.
  pub body_line-IsWellFormed :
      (s : String) (fn : PtxFunction)
      → a + line_shared s < 2 ^ 31
      → b + line_local s < 2 ^ 31
      → IsWellFormed a b fn
      → IfSome (IsWellFormed (a + line_shared s) (b + line_local s)) (body_line s fn)
  unfolding body_line
  body_line-IsWellFormed s fn room_s room_l w =
      let Goal : Option PtxFunction → Type 0 =
        IfSome (IsWellFormed (a + line_shared s) (b + line_local s)) in
      let w' : IsWellFormed (a + line_shared s) (b + line_local s) fn =
        IsWellFormed-le fn (omega arith) (omega arith) w in
      if_elim Goal (same_name s "{" || same_name s "}") _ _ w' (
        if_elim Goal (starts_with s ".reg") _ _ (with_registers-IsWellFormed _ fn w') (
          if_case Goal (starts_with s ".shared") _ _
            (λ is_shared.
              let cost : shared_cost s ≤ line_shared s = ground arith in
              IsWellFormed-le (declare_shared s fn) (omega (arith, cost)) (omega arith)
                (declare_shared-IsWellFormed s fn (omega (arith, cost, room_s)) w))
            (λ other.
              if_case Goal (starts_with s ".local") _ _
                (λ is_local.
                  let cost : local_cost s ≤ line_local s = ground arith in
                  IsWellFormed-le (declare_local s fn) (omega arith) (omega (arith, cost))
                    (declare_local-IsWellFormed s fn (omega (arith, cost, room_l)) w))
                (λ other'.
                  if_elim Goal (starts_with s ".") _ _ w' (code_line-IsWellFormed s fn w')))))

-- An entry of a signature leaves all but the parameters.
abbrev OnlyParams : PtxFunction → PtxFunction → Type 0
OnlyParams fn fn' = fn' ≡ record fn { params = fn'.params; params_blob_size = fn'.params_blob_size }

parse_param_entry-OnlyParams :
    (e : List String) (fn : PtxFunction) → IfSome (OnlyParams fn) (parse_param_entry e fn)
unfolding parse_param_entry
parse_param_entry-OnlyParams [] fn = refl
parse_param_entry-OnlyParams (tok ∷ toks) fn =
    if_elim (IfSome (OnlyParams fn)) (not (same_name tok ".param")) _ _ refl (
      if_elim (IfSome (OnlyParams fn))
        ((param_words 0 "" toks).0 == 0 || same_name (param_words 0 "" toks).1 "") _ _ tt refl)

module _ {a b : ℕ} where
  with_params-IsWellFormed :
      (fn : PtxFunction) (o : Option PtxFunction)
      → IsWellFormed a b fn
      → IfParsed SignaturePacked o
      → IfSome (OnlyParams fn) o
      → IfSome (IsWellFormed a b) o
  with_params-IsWellFormed fn none w packed only = tt
  with_params-IsWellFormed fn (some fn') w packed only =
      subst (λ (f : PtxFunction). IsWellFormed a b f) (sym only)
        (record {
          labels_within = w.labels_within;
          signature_packed = packed;
          shared_packed = w.shared_packed;
          local_packed = w.local_packed;
          shared_room = w.shared_room;
          local_room = w.local_room;
        })

  pub parse_param_entries-IsWellFormed :
      (es : List (List String)) (fn : PtxFunction)
      → IsWellFormed a b fn
      → IfSome (IsWellFormed a b) (parse_param_entries es fn)
  unfolding parse_param_entries
  parse_param_entries-IsWellFormed [] fn w = w
  parse_param_entries-IsWellFormed (e ∷ es) fn w =
      go (parse_param_entry e fn)
        (with_params-IsWellFormed fn (parse_param_entry e fn) w
          (parse_param_entry-SignaturePacked e fn w.signature_packed)
          (parse_param_entry-OnlyParams e fn))
        (parse_param_entries-IsWellFormed es)
    where
      go :
          (o : Option PtxFunction)
          → IfSome (IsWellFormed a b) o
          → ((fn' : PtxFunction)
              → IsWellFormed a b fn'
              → IfSome (IsWellFormed a b) (parse_param_entries es fn'))
          → IfSome (IsWellFormed a b) (elim o as (λ x. Option PtxFunction) [
            | none ↦ none
            | some fn' ↦ parse_param_entries es fn'
          ])
      go none h rest = tt
      go (some fn') h rest = rest fn' h
