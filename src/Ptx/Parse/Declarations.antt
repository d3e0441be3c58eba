-- ===== src/Ptx/Parse/Declarations.antt =====
-- The texts of `.reg`, `.shared`, `.local`, `.global` and `.const` declarations. A number of
-- elements is the pattern of an `int`, as in Ptx/Layout.
use Prim.Native.String.{String}
use Prim.Native.Char.{code}
use rouge_v.Base.{
  ℕ, zero, suc, ◌+◌, ◌/◌, ◌%◌, Bool, false, not, ◌||◌, List, [], ◌∷◌, ◌++◌, Option, none, some,
  ◌==◌, ltb, if◌then◌else◌, length,
}
use rouge_v.Base.Text.{same_name, starts_with}
use rouge_v.Base.Chars.{concat, is_empty, cut, before, drop, trim, words, atoi}
use rouge_v.Base.Assoc.{assign_name}
use rouge_v.Ptx.Layout.{
  Brackets, no_brackets, unsized, sized, Token, dot_align, dot_type, variable, is_positive,
  shared_align, parse_shared_decl, parse_local_decl,
}
use rouge_v.Ptx.Parse.{drop_last}
use rouge_v.Ptx.Program.{PtxFunction, PtxProgram}

unfoldable pub shared_elem_bytes : String → ℕ
shared_elem_bytes type =
    if same_name type ".b8" || same_name type ".u8" || same_name type ".s8"
    then 1
    else if same_name type ".b16"
        || same_name type ".u16"
        || same_name type ".s16"
        || same_name type ".f16"
    then 2
    else if same_name type ".f64"
        || same_name type ".b64"
        || same_name type ".u64"
        || same_name type ".s64"
    then 8
    else 4

abbrev pub drop_comma : String → String
drop_comma t = elim (drop_last b',' t) [ none ↦ t | some rest ↦ rest ]

-- A name with its brackets; `none` where the code passes over it.
unfoldable pub variable_token : String → Option (String × Brackets)
variable_token t = if is_empty t then none else elim (cut b'[' t) [
  | none ↦ some (t, no_brackets)
  | some (name, behind) ↦ elim (cut b']' behind) [
    | none ↦ none
    | some (inside, rest) ↦
        if is_empty name
        then none
        else some (name, if is_empty inside then unsized else sized (atoi inside))
  ]
]

abbrev pub add_variable : Option (String × Brackets) → List (Token String) → List (Token String)
add_variable none ts = ts
add_variable (some (name, b)) ts = variable name b ∷ ts

-- The tokens of the words behind the first one.
unfoldable pub tokens : List String → List (Token String)
tokens [] = []
tokens (tok ∷ []) =
    if same_name tok ".align"
    then dot_align 0 ∷ []
    else if starts_with tok "."
    then dot_type (shared_elem_bytes tok) ∷ []
    else add_variable (variable_token (drop_comma tok)) []
tokens (tok ∷ tok' ∷ toks) =
    let aligned = dot_align (atoi tok') ∷ tokens toks in
    let rest = tokens (tok' ∷ toks) in
    if same_name tok ".align"
    then aligned
    else if starts_with tok "."
    then dot_type (shared_elem_bytes tok) ∷ rest
    else add_variable (variable_token (drop_comma tok)) rest

abbrev pub behind_first : List String → List String
behind_first [] = []
behind_first (w ∷ ws) = ws

-- A declaration without its end.
abbrev pub statement : String → String
statement line = before b';' (trim line)

unfoldable pub decl_tokens : String → List (Token String)
decl_tokens s = tokens (behind_first (words s))

-- A declaration of shared memory without ".extern".
unfoldable pub without_extern : String → String
without_extern s = if starts_with s ".extern" then trim (drop 7 s) else s

unfoldable pub declare_shared : String → PtxFunction → PtxFunction
declare_shared line fn =
    let s =
      parse_shared_decl same_name (decl_tokens (without_extern (statement line)))
        (record { shared_vars = fn.shared_vars; shared_size = fn.shared_size }) in
    record fn { shared_vars = s.shared_vars; shared_size = s.shared_size }

unfoldable pub declare_local : String → PtxFunction → PtxFunction
declare_local line fn =
    let s =
      parse_local_decl same_name (decl_tokens (statement line))
        (record { local_vars = fn.local_vars; local_size = fn.local_size }) in
    record fn { local_vars = s.local_vars; local_size = s.local_size }

abbrev pub global_count_of : Brackets → ℕ
global_count_of no_brackets = 1
global_count_of unsized = 0
global_count_of (sized n) = n

unfoldable pub add_global : Bool → ℕ → ℕ → String → Brackets → PtxProgram → PtxProgram
add_global is_const align elem_bytes name b prog = record prog {
  global_index = assign_name name (length prog.globals) prog.global_index;
  globals =
      prog.globals
      ++ (record {
        global_name = name;
        global_align = shared_align align elem_bytes;
        global_elem_bytes = elem_bytes;
        global_count = global_count_of b;
        is_const = is_const;
      }
          ∷ []);
}

unfoldable pub global_tokens : Bool → ℕ → ℕ → List (Token String) → PtxProgram → PtxProgram
global_tokens is_const align elem_bytes [] prog = prog
global_tokens is_const align elem_bytes (dot_align n ∷ ts) prog =
    global_tokens is_const n elem_bytes ts prog
global_tokens is_const align elem_bytes (dot_type n ∷ ts) prog =
    global_tokens is_const align n ts prog
global_tokens is_const align elem_bytes (variable name b ∷ ts) prog =
    global_tokens is_const align elem_bytes ts (add_global is_const align elem_bytes name b prog)

unfoldable pub parse_global_decl : String → PtxProgram → PtxProgram
parse_global_decl line prog =
    let ws = words (statement line) in
    global_tokens (elim ws [ [] ↦ false | w ∷ rest ↦ same_name w ".const" ]) 0 4
      (tokens (behind_first ws)) prog

abbrev pub digit_text : ℕ → String
digit_text n =
    if n == 0
    then "0"
    else if n == 1
    then "1"
    else if n == 2
    then "2"
    else if n == 3
    then "3"
    else if n == 4
    then "4"
    else if n == 5
    then "5"
    else if n == 6
    then "6"
    else if n == 7
    then "7"
    else if n == 8
    then "8"
    else "9"

-- `to_string`, on fuel for the digits: a number has no more than its value, or one.
unfoldable pub decimal : ℕ → ℕ → String
decimal zero n = digit_text (n % 10)
decimal (suc fuel) n =
    let front = decimal fuel (n / 10) in
    if ltb n 10 then digit_text n else concat front (digit_text (n % 10))

unfoldable pub reg_bits_of : String → ℕ
reg_bits_of type =
    if same_name type ".b64"
      || same_name type ".u64"
      || same_name type ".s64"
      || same_name type ".f64"
    then 64
    else if same_name type ".pred"
    then 1
    else if same_name type ".b16"
        || same_name type ".u16"
        || same_name type ".s16"
        || same_name type ".f16"
        || same_name type ".bf16"
    then 16
    else 32

-- The commas and semicolons at the end of a name; each round takes a character away.
unfoldable pub drop_ends : String → String → String
drop_ends String.[] t = t
drop_ends (String.◌∷◌ c fuel) t = elim (drop_last b',' t) [
  | some rest ↦ drop_ends fuel rest
  | none ↦ elim (drop_last b';' t) [ some rest ↦ drop_ends fuel rest | none ↦ t ]
]

-- "%r<9>": the registers from `i` on.
unfoldable pub number_registers : String → ℕ → ℕ → ℕ → List (String × ℕ) → List (String × ℕ)
number_registers base bits i zero regs = regs
number_registers base bits i (suc left) regs =
    number_registers base bits (i + 1) left (assign_name (concat base (decimal i i)) bits regs)

unfoldable pub declare_register : ℕ → String → List (String × ℕ) → List (String × ℕ)
declare_register bits String.[] regs = regs
declare_register bits (String.◌∷◌ c t) regs =
    if not (code c == b'%') then regs else elim (cut b'<' t) [
      | none ↦ assign_name t bits regs
      | some (base, behind) ↦ elim (cut b'>' behind) [
        | none ↦ regs
        | some (count, rest) ↦
            let n = atoi count in number_registers base bits 0 (if is_positive n then n else 0) regs
      ]
    ]

unfoldable pub declare_registers : ℕ → List String → List (String × ℕ) → List (String × ℕ)
declare_registers bits [] regs = regs
declare_registers bits (tok ∷ toks) regs =
    declare_registers bits toks (declare_register bits (drop_ends (trim tok) (trim tok)) regs)

-- Where there is no second word, the type is the first.
unfoldable pub parse_reg_decl : String → List (String × ℕ) → List (String × ℕ)
parse_reg_decl line regs = elim (words (statement line)) [
  | [] ↦ regs
  | first ∷ [] ↦ regs
  | first ∷ type ∷ toks ↦ declare_registers (reg_bits_of type) toks regs
]
