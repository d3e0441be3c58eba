-- ===== src/Ptx/Parse/Module.antt =====
-- `parse_ptx`: the loop over the lines of a module. The functions before the current one stand in
-- the program.
use Prim.Native.String.{String}
use rouge_v.Base.{
  ℕ, Bool, true, false, not, ◌&&◌, ◌||◌, List, [], ◌∷◌, ◌++◌, Option, none, some, if◌then◌else◌,
  length, map,
}
use rouge_v.Base.Text.{same_name, starts_with}
use rouge_v.Base.Chars.{is_empty, split, cut, before, drop, trim, words, atoi, contains, find_text}
use rouge_v.Base.Assoc.{assign_name}
use rouge_v.Ptx.Program.{PtxInstruction, PtxFunction, PtxProgram}
use rouge_v.Ptx.Params.{parse_param_entries}
use rouge_v.Ptx.Parse.{strip_comment, parse_instruction, Label, find_label, is_blank_or_comment}
use rouge_v.Ptx.Parse.Declarations.{
  declare_shared, declare_local, parse_global_decl, parse_reg_decl,
}

-- The lines that wait for the functions stand in their order.
pub record Reading : Type 0 where
  pub prog : PtxProgram
  pub current : Option PtxFunction
  pub in_params : Bool
  pub extern_shared : List String
  pub module_shared : List String
  pub module_local : List String

-- A reading goes on, or the text is refused, or `substr` throws `out_of_range`.
pub data Parsing (A : Type 0) : Type 0 where
  done : A → Parsing A
  refused : Parsing A
  out_of_range : Parsing A

abbrev pub empty_function : String → PtxFunction
empty_function name = record {
  function_name = name;
  params = [];
  body = [];
  labels = [];
  reg_bits = [];
  shared_vars = [];
  shared_size = 0;
  local_vars = [];
  local_size = 0;
  params_blob_size = 0;
}

abbrev pub all_functions : List PtxFunction → Option PtxFunction → List PtxFunction
all_functions fs none = fs
all_functions fs (some fn) = fs ++ (fn ∷ [])

-- The entries of a signature by their words.
abbrev pub entries : String → List (List String)
entries s = map words (split b',' s)

-- The header of a function behind ".entry ".
unfoldable pub start_function : String → Reading → Parsing Reading
start_function rest r =
    let fs = all_functions r.prog.functions r.current in
    let name = trim (before b'(' rest) in
    let fn = empty_function name in
    let r' = record r {
      prog = record r.prog {
        functions = fs;
        function_index = assign_name name (length fs) r.prog.function_index;
      };
      current = some fn;
    } in
    elim (cut b'(' rest) [
      | none ↦ done (record r' { in_params = false })
      | some (name', behind) ↦ elim (cut b')' behind) [
        | none ↦ done (record r' { in_params = true })
        | some (inside, body) ↦ elim (parse_param_entries (entries inside) fn) [
          | none ↦ refused
          | some fn' ↦ done (record r' { in_params = false; current = some fn' })
        ]
      ]
    ]

abbrev pub target_of : String → ℕ → ℕ
target_of s sm =
    if starts_with s ".target" then elim (find_text "sm_" s) [ none ↦ sm | some t ↦ atoi t ] else sm

-- A line outside of any function.
unfoldable pub module_line : String → Reading → Reading
module_line s r =
    let shared = contains ".shared" s in
    let p = record r.prog { target_sm = target_of s r.prog.target_sm } in
    let p' =
      if starts_with s ".global" || starts_with s ".const" then parse_global_decl s p else p in
    let p'' =
      if starts_with s ".extern" && (contains ".global" s || contains ".const" s) && not shared
      then parse_global_decl (drop 7 s) p'
      else p' in
    record r {
      prog = p'';
      extern_shared =
          if starts_with s ".extern" && shared
          then r.extern_shared ++ (s ∷ [])
          else r.extern_shared;
      module_shared =
          if starts_with s ".shared" then r.module_shared ++ (s ∷ []) else r.module_shared;
      module_local = if starts_with s ".local" then r.module_local ++ (s ∷ []) else r.module_local;
    }

-- A line of a signature that stands on several.
unfoldable pub param_line : String → PtxFunction → Reading → Parsing Reading
param_line s fn r =
    if same_name s ")"
    then done (record r { in_params = false })
    else if starts_with s ".param"
    then elim (parse_param_entries (map (λ e. words (before b')' e)) (split b',' s)) fn) [
      | none ↦ refused
      | some fn' ↦ done (record r { current = some fn'; in_params = not (contains ")" s) })
    ]
    else done r

abbrev pub add_instruction : PtxInstruction → PtxFunction → PtxFunction
add_instruction i fn = record fn { body = fn.body ++ (i ∷ []) }

abbrev pub add_label : String → PtxFunction → PtxFunction
add_label label fn = record fn { labels = assign_name label (length fn.body) fn.labels }

-- A line with a label, and an instruction in front of it if there is text.
unfoldable pub label_line : Label → PtxFunction → Option PtxFunction
label_line l fn =
    if is_empty (trim l.head)
    then some (add_label l.label fn)
    else elim (parse_instruction (trim l.head)) [
      | none ↦ none
      | some i ↦ some (add_label l.label (add_instruction i fn))
    ]

unfoldable pub instruction_line : String → PtxFunction → Option PtxFunction
instruction_line s fn = elim (parse_instruction s) [
  | none ↦ none
  | some i ↦ some (add_instruction i fn)
]

unfoldable pub code_line : String → PtxFunction → Option PtxFunction
code_line s fn = elim (find_label s) [
  | none ↦ instruction_line s fn
  | some l ↦ if is_blank_or_comment l.tail then label_line l fn else instruction_line s fn
]

unfoldable pub body_line : String → PtxFunction → Option PtxFunction
body_line s fn =
    if same_name s "{" || same_name s "}"
    then some fn
    else if starts_with s ".reg"
    then some (record fn { reg_bits = parse_reg_decl s fn.reg_bits })
    else if starts_with s ".shared"
    then some (declare_shared s fn)
    else if starts_with s ".local"
    then some (declare_local s fn)
    else if starts_with s "."
    then some fn
    else code_line s fn

-- A line that is no header.
unfoldable pub inner_line : String → Reading → Parsing Reading
inner_line s r = elim r.current [
  | none ↦ done (module_line s r)
  | some fn ↦ if r.in_params then param_line s fn r else elim (body_line s fn) [
    | none ↦ refused
    | some fn' ↦ done (record r { current = some fn' })
  ]
]

-- A line without its comment and the blanks around it. Behind ".visible .entry" the code steps over
-- the character that follows, which the line must have.
unfoldable pub parse_line : String → Reading → Parsing Reading
parse_line s r =
    if is_empty s
    then done r
    else if same_name s ".visible .entry"
    then out_of_range
    else if starts_with s ".visible .entry"
    then start_function (trim (drop 16 s)) r
    else if starts_with s ".entry "
    then start_function (trim (drop 7 s)) r
    else inner_line s r

unfoldable pub parse_lines : List String → Reading → Parsing Reading
parse_lines [] r = done r
parse_lines (line ∷ lines) r = elim (parse_line (trim (strip_comment line)) r) [
  | done r' ↦ parse_lines lines r'
  | refused ↦ refused
  | out_of_range ↦ out_of_range
]

-- The lines that waited, for each function.
unfoldable pub declare_all :
    (String → PtxFunction → PtxFunction) → List String → List PtxFunction → List PtxFunction
declare_all declare [] fs = fs
declare_all declare (d ∷ ds) fs = declare_all declare ds (map (declare d) fs)

unfoldable pub finish : Reading → PtxProgram
finish r = record r.prog {
  functions = declare_all declare_local r.module_local (
      declare_all declare_shared r.module_shared
        (declare_all declare_shared r.extern_shared (all_functions r.prog.functions r.current)));
}

abbrev pub no_lines : Reading
no_lines = record {
  prog = record {
    functions = [];
    function_index = [];
    globals = [];
    global_index = [];
    target_sm = 0;
  };
  current = none;
  in_params = false;
  extern_shared = [];
  module_shared = [];
  module_local = [];
}

unfoldable pub parse_ptx : String → Parsing PtxProgram
parse_ptx image = elim (parse_lines (split 10 image) no_lines) [
  | done r ↦ done (finish r)
  | refused ↦ refused
  | out_of_range ↦ out_of_range
]
