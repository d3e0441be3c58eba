-- ===== src/Ptx/Parse.antt =====
-- software/rouge-ptx/ptx.cpp: the text of instructions and labels, as `parse_ptx` reads it line by
-- line. Texts are ASCII.
pub mod Declarations
pub mod Module
pub mod Labels
pub mod WellFormed
pub mod Examples
use Prim.Native.String.{String, ◌++◌}
use Prim.Native.Char.{Char, code}
use rouge_v.Base.{
  ℕ, zero, suc, Bool, true, false, ◌&&◌, ◌||◌, List, [], ◌∷◌, Option, none, some, ◌==◌, leb,
  if◌then◌else◌,
}
use rouge_v.Base.Text.{same_name, starts_with}
use rouge_v.Base.Chars.{is_empty, split, cut, before, drop, trim, is_space, is_digit}
use rouge_v.Ptx.Program.{PtxInstruction}

unfoldable pub strip_comment : String → String
strip_comment String.[] = String.[]
strip_comment (String.◌∷◌ c s) =
    if code c == b'/' && starts_with s "/" then String.[] else String.◌∷◌ c (strip_comment s)

-- The text without a last character, if that is the one given.
unfoldable pub drop_last : ℕ → String → Option String
drop_last d String.[] = none
drop_last d (String.◌∷◌ c String.[]) = if code c == d then some String.[] else none
drop_last d (String.◌∷◌ c (String.◌∷◌ c' s)) = elim (drop_last d (String.◌∷◌ c' s)) [
  | none ↦ none
  | some rest ↦ some (String.◌∷◌ c rest)
]

-- "[%rd1]" without its brackets and its sigil; `none` where it is not of this form.
unfoldable pub register_in_brackets : String → Option String
register_in_brackets s = elim (drop_last b']' s) [
  | none ↦ none
  | some inside ↦ if is_empty inside then none else elim (trim inside) [
    | String.[] ↦ none
    | String.◌∷◌ c name ↦ if code c == b'%' then some name else none
  ]
]

unfoldable pub norm_operand : String → String
norm_operand String.[] = String.[]
norm_operand (String.◌∷◌ c s) =
    if code c == b'%'
    then s
    else if code c == b'['
    then elim (register_in_brackets s) [ none ↦ String.◌∷◌ c s | some name ↦ "[" ++ (name ++ "]") ]
    else String.◌∷◌ c s

-- The loop over the arguments between the commas.
unfoldable pub arguments : List String → List String
arguments [] = []
arguments (tok ∷ toks) =
    let a = norm_operand (trim tok) in
    let rest = arguments toks in if is_empty a then rest else a ∷ rest

-- The text without the first occurrence of ".volatile".
unfoldable pub erase_volatile : String → Option String
erase_volatile String.[] = none
erase_volatile (String.◌∷◌ c s) =
    if starts_with (String.◌∷◌ c s) ".volatile"
    then some (drop 9 (String.◌∷◌ c s))
    else elim (erase_volatile s) [ none ↦ none | some rest ↦ some (String.◌∷◌ c rest) ]

-- As long as there is one, on as much fuel as there are characters: each round takes nine away.
unfoldable pub erase_volatiles : String → String → String
erase_volatiles String.[] op = op
erase_volatiles (String.◌∷◌ c fuel) op = elim (erase_volatile op) [
  | none ↦ op
  | some op' ↦ erase_volatiles fuel op'
]

-- "@!%p1" and its spellings, behind the sign: "!p1" or "p1".
unfoldable pub drop_sigil : String → String
drop_sigil String.[] = String.[]
drop_sigil (String.◌∷◌ c s) = if code c == b'%' then s else String.◌∷◌ c s

unfoldable pub predicate : String → String
predicate String.[] = String.[]
predicate (String.◌∷◌ c s) =
    if code c == b'!' then String.◌∷◌ c (drop_sigil s) else drop_sigil (String.◌∷◌ c s)

-- The opcode and the arguments.
unfoldable pub operation : String → String → PtxInstruction
operation pred rest = elim (cut b' ' rest) [
  | none ↦ record { op = erase_volatiles rest rest; pred = pred; args = [] }
  | some (op, behind) ↦ record {
    op = erase_volatiles op op;
    pred = pred;
    args = arguments (split b',' (trim behind));
  }
]

abbrev pub no_instruction : PtxInstruction
no_instruction = record { op = ""; pred = ""; args = [] }

-- `parse_instruction` behind the semicolon's cut.
unfoldable pub parse_statement : String → Option PtxInstruction
parse_statement String.[] = some no_instruction
parse_statement (String.◌∷◌ c s) =
    if code c == b'@'
    then elim (cut b' ' s) [
      | none ↦ none
      | some (pred, behind) ↦ some (operation (predicate (trim pred)) (trim behind))
    ]
    else some (operation "" (String.◌∷◌ c s))

-- `none` is its `false`.
unfoldable pub parse_instruction : String → Option PtxInstruction
parse_instruction raw = parse_statement (trim (before b';' (trim raw)))

abbrev pub is_alpha : Char → Bool
is_alpha c = (leb b'a' (code c) && leb (code c) b'z') || (leb b'A' (code c) && leb (code c) b'Z')

unfoldable pub ident_start : Char → Bool
ident_start c = is_alpha c || code c == b'_' || code c == b'$'

unfoldable pub ident_cont : Char → Bool
ident_cont c = is_alpha c || is_digit c || code c == b'_' || code c == b'$'

pub record Label : Type 0 where
  pub head : String
  pub label : String
  pub tail : String

-- The scan behind `head`, inside the identifier `word` if that is not empty.
unfoldable pub scan_label : String → String → String → Option Label
scan_label head word String.[] = none
scan_label head word (String.◌∷◌ c s) =
    if is_empty word
    then (let started = scan_label head (String.◌∷◌ c String.[]) s in
        let passed = scan_label (head ++ String.◌∷◌ c String.[]) String.[] s in
        if ident_start c then started else passed)
    else (let longer = scan_label head (word ++ String.◌∷◌ c String.[]) s in
        let passed = scan_label (head ++ (word ++ String.◌∷◌ c String.[])) String.[] s in
        if ident_cont c
        then longer
        else if code c == b':'
        then some (record { head = head; label = word; tail = s })
        else passed)

unfoldable pub find_label : String → Option Label
find_label s = scan_label "" "" s

unfoldable pub skip_space : String → String
skip_space String.[] = String.[]
skip_space (String.◌∷◌ c s) = let rest = skip_space s in if is_space c then rest else String.◌∷◌ c s

-- What stands behind the first "*/".
unfoldable pub behind_comment : String → Option String
behind_comment String.[] = none
behind_comment (String.◌∷◌ c s) =
    let rest = behind_comment s in
    if code c == b'*' && starts_with s "/" then some (drop 1 s) else rest

unfoldable pub is_blank_or_comment : String → Bool
is_blank_or_comment s =
    let t = skip_space s in
    if is_empty t
    then true
    else if starts_with t "/*"
    then elim (behind_comment (drop 2 t)) [ none ↦ false | some rest ↦ is_empty (skip_space rest) ]
    else false
