-- ===== src/Ptx/Parse/WellFormed/Globals.antt =====
-- Declarations of globals.
use Prim.Native.String.{String}
use rouge_v.Base.{ℕ, Bool, List, [], ◌∷◌, ◌≡◌, arith, length, length-append}
use rouge_v.Ptx.Layout.{Token, dot_align, dot_type, variable, Brackets}
use rouge_v.Ptx.Program.{PtxProgram}
use rouge_v.Ptx.Parse.Declarations.{add_global, global_tokens, parse_global_decl}
use rouge_v.Ptx.Parse.WellFormed.Functions.{IsBelow, assign_name-IsBelow, IsBelow-le}

-- A declaration of globals leaves the functions, and the index of the globals is right.
pub record IsDeclared (prog p : PtxProgram) : Type 0 where
  pub same_functions : p.functions ≡ prog.functions
  pub same_index : p.function_index ≡ prog.function_index
  pub right : IsBelow (length p.globals) p.global_index

add_global-right :
    (is_const : Bool) (align elem_bytes : ℕ) (name : String) (b : Brackets) (prog : PtxProgram)
    → IsBelow (length prog.globals) prog.global_index
    → (let p = add_global is_const align elem_bytes name b prog in
        IsBelow (length p.globals) p.global_index)
unfolding add_global
add_global-right is_const align elem_bytes name b prog known =
    assign_name-IsBelow _ name (length prog.globals) prog.global_index
      (omega (arith, length-append prog.globals _))
      (IsBelow-le (length prog.globals) _ prog.global_index
        (omega (arith, length-append prog.globals _)) known)

global_tokens-IsDeclared :
    (is_const : Bool) (align elem_bytes : ℕ) (ts : List (Token String)) (prog p : PtxProgram)
    → IsDeclared prog p
    → IsDeclared prog (global_tokens is_const align elem_bytes ts p)
unfolding global_tokens
global_tokens-IsDeclared is_const align e [] prog p d = d
global_tokens-IsDeclared is_const align e (dot_align n ∷ ts) prog p d =
    global_tokens-IsDeclared is_const n e ts prog p d
global_tokens-IsDeclared is_const align e (dot_type n ∷ ts) prog p d =
    global_tokens-IsDeclared is_const align n ts prog p d
global_tokens-IsDeclared is_const align e (variable name b ∷ ts) prog p d =
    global_tokens-IsDeclared is_const align e ts prog (add_global is_const align e name b p) (
      unfold add_global in
      record {
        same_functions = d.same_functions;
        same_index = d.same_index;
        right = add_global-right is_const align e name b p d.right;
      })

pub parse_global_decl-IsDeclared :
    (line : String) (prog p : PtxProgram)
    → IsDeclared prog p
    → IsDeclared prog (parse_global_decl line p)
unfolding parse_global_decl
parse_global_decl-IsDeclared line prog p d = global_tokens-IsDeclared _ 0 4 _ prog p d
