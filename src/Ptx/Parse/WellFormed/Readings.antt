-- ===== src/Ptx/Parse/WellFormed/Readings.antt =====
-- What the loop over the lines keeps.
use Prim.Native.String.{String}
use mathlib.Core.Path.{subst}
use rouge_v.Base.{
  sym, ℕ, ◌≤◌, ◌&&◌, if◌then◌else◌, ◌+◌, Bool, true, false, ◌||◌, List, [], ◌∷◌, ◌++◌, Option, none,
  some, ◌≡◌, refl, arith, length, length-append, if_elim, ap,
}
use rouge_v.Base.Text.{starts_with}
use rouge_v.Base.Chars.{cut, before, drop, trim, contains}
use rouge_v.Base.Assoc.{assign_name}
use rouge_v.Ptx.Program.{PtxFunction}
use rouge_v.Ptx.Params.{parse_param_entries}
use rouge_v.Ptx.Parse.Declarations.{parse_global_decl}
use rouge_v.Ptx.Parse.Module.{
  target_of, entries, Reading, Parsing, done, refused, out_of_range, empty_function, all_functions,
  start_function, module_line,
}
use rouge_v.Ptx.Parse.WellFormed.Functions.{
  IsBelow, assign_name-IsBelow, IsBelow-le, IsWellFormed, empty_function-IsWellFormed, IfSome,
  IsWellFormed-le, shared_cost, local_cost, line_shared, line_local,
}
use rouge_v.Ptx.Parse.WellFormed.Lines.{parse_param_entries-IsWellFormed}
use rouge_v.Ptx.Parse.WellFormed.Globals.{IsDeclared, parse_global_decl-IsDeclared}

abbrev pub AllFunctions : (PtxFunction → Type 0) → List PtxFunction → Type 0
AllFunctions P [] = Unit {0}
AllFunctions P (fn ∷ fs) = P fn × AllFunctions P fs

-- The costs of the lines that wait.
abbrev pub waiting_cost : (String → ℕ) → List String → ℕ
waiting_cost cost [] = 0
waiting_cost cost (d ∷ ds) = cost d + waiting_cost cost ds

waiting_cost-append :
    (cost : String → ℕ) (ds : List String) (d : String)
    → waiting_cost cost (ds ++ (d ∷ [])) ≡ waiting_cost cost ds + cost d
waiting_cost-append cost [] d = omega arith
waiting_cost-append cost (d' ∷ ds) d = omega (arith, waiting_cost-append cost ds d)

waiting_cost-if :
    (cost : String → ℕ) (b : Bool) (ds : List String) (d : String)
    → waiting_cost cost (if b then ds ++ (d ∷ []) else ds)
      ≡ waiting_cost cost ds + (if b then cost d else 0)
waiting_cost-if cost true ds d = waiting_cost-append cost ds d
waiting_cost-if cost false ds d = omega arith

AllFunctions-append :
    (P : PtxFunction → Type 0) (fs : List PtxFunction) (fn : PtxFunction)
    → AllFunctions P fs
    → P fn
    → AllFunctions P (fs ++ (fn ∷ []))
AllFunctions-append P [] fn all one = (one, tt)
AllFunctions-append P (f ∷ fs) fn all one = (all.0, AllFunctions-append P fs fn all.1 one)

pub AllFunctions-more :
    (P Q : PtxFunction → Type 0)
    → ((fn : PtxFunction) → P fn → Q fn)
    → (fs : List PtxFunction) → AllFunctions P fs
    → AllFunctions Q fs
AllFunctions-more P Q more [] all = tt
AllFunctions-more P Q more (fn ∷ fs) all = (more fn all.0, AllFunctions-more P Q more fs all.1)

-- What holds of a result, where there is one.
abbrev pub IfDone : {A : Type 0} → (A → Type 0) → Parsing A → Type 0
IfDone P (done a) = P a
IfDone P refused = Unit {0}
IfDone P out_of_range = Unit {0}

-- The sizes so far are at most `a` and `b`; with what waits, they are at most `c` and `d`.
pub record IsReading (c d : ℕ) (r : Reading) : Type 0 where
  pub a : ℕ
  pub b : ℕ
  pub earlier : AllFunctions (IsWellFormed a b) r.prog.functions
  pub now : IfSome (IsWellFormed a b) r.current
  pub known : IsBelow (length (all_functions r.prog.functions r.current)) r.prog.function_index
  pub globals_known : IsBelow (length r.prog.globals) r.prog.global_index
  pub shared_waits :
      a + waiting_cost shared_cost r.extern_shared + waiting_cost shared_cost r.module_shared ≤ c
  pub local_waits : b + waiting_cost local_cost r.module_local ≤ d

pub IsReading-le :
    {c d c' d' : ℕ} (r : Reading) → c ≤ c' → d ≤ d' → IsReading c d r → IsReading c' d' r
IsReading-le r lc ld w = record {
  a = w.a;
  b = w.b;
  earlier = w.earlier;
  now = w.now;
  known = w.known;
  globals_known = w.globals_known;
  shared_waits = omega (arith, lc, w.shared_waits);
  local_waits = omega (arith, ld, w.local_waits);
}

pub all_functions-AllFunctions :
    (P : PtxFunction → Type 0) (fs : List PtxFunction) (o : Option PtxFunction)
    → AllFunctions P fs
    → IfSome P o
    → AllFunctions P (all_functions fs o)
all_functions-AllFunctions P fs none all one = all
all_functions-AllFunctions P fs (some fn) all one = AllFunctions-append P fs fn all one

length-all_functions :
    (fs : List PtxFunction) (fn : PtxFunction) → length (all_functions fs (some fn)) ≡ length fs + 1
length-all_functions fs fn = omega (arith, length-append fs (fn ∷ []))

pub module_line-IsReading :
    {c d : ℕ} (s : String) (r : Reading)
    → IsReading c d r
    → IsReading (c + line_shared s) (d + line_local s) (module_line s r)
unfolding module_line
module_line-IsReading s r w =
    let p = record r.prog { target_sm = target_of s r.prog.target_sm } in
    let start : IsDeclared r.prog p = record {
      same_functions = refl;
      same_index = refl;
      right = w.globals_known;
    } in
    let first =
      if_elim (λ q. IsDeclared r.prog q) (starts_with s ".global" || starts_with s ".const")
        (parse_global_decl s p) p (parse_global_decl-IsDeclared s r.prog p start) start in
    let declared =
      if_elim (λ q. IsDeclared r.prog q) _ _ _
        (parse_global_decl-IsDeclared (drop 7 s) r.prog _ first) first in
    record {
      a = w.a;
      b = w.b;
      earlier =
          subst (λ fs. AllFunctions (IsWellFormed w.a w.b) fs) (sym declared.same_functions)
            w.earlier;
      now = w.now;
      known = rw (declared.same_functions, declared.same_index) w.known;
      globals_known = declared.right;
      shared_waits = omega (
        arith,
        w.shared_waits,
        waiting_cost-if shared_cost (starts_with s ".extern" && contains ".shared" s)
            r.extern_shared s,
        waiting_cost-if shared_cost (starts_with s ".shared") r.module_shared s,
      );
      local_waits = omega (
        arith,
        w.local_waits,
        waiting_cost-if local_cost (starts_with s ".local") r.module_local s,
      );
    }

pub with_current-IsReading :
    {c d : ℕ} (r : Reading) (fn fn' : PtxFunction) (in_params : Bool) (k l : ℕ)
    (w : IsReading c d r)
    → r.current ≡ some fn
    → IsWellFormed (w.a + k) (w.b + l) fn'
    → IsReading (c + k) (d + l) (record r { current = some fn'; in_params = in_params })
with_current-IsReading r fn fn' in_params k l w here good = record {
  a = w.a + k;
  b = w.b + l;
  earlier =
      AllFunctions-more _ _ (λ f. IsWellFormed-le f (omega arith) (omega arith)) r.prog.functions
        w.earlier;
  now = good;
  known =
      IsBelow-le _ _ r.prog.function_index
        (let known_here = ap (λ o. length (all_functions r.prog.functions o)) here in
          omega (
            arith,
            known_here,
            length-all_functions r.prog.functions fn,
            length-all_functions r.prog.functions fn',
          ))
        w.known;
  globals_known = w.globals_known;
  shared_waits = omega (arith, w.shared_waits);
  local_waits = omega (arith, w.local_waits);
}

started-IsReading :
    {c d : ℕ} (r : Reading) (name : String) (fn : PtxFunction) (in_params : Bool)
    (w : IsReading c d r)
    → IsWellFormed w.a w.b fn
    → (let fs = all_functions r.prog.functions r.current in
        IsReading c d (record r {
          prog = record r.prog {
            functions = fs;
            function_index = assign_name name (length fs) r.prog.function_index;
          };
          current = some fn;
          in_params = in_params;
        }))
started-IsReading r name fn in_params w good =
    let fs = all_functions r.prog.functions r.current in
    record {
      a = w.a;
      b = w.b;
      earlier = all_functions-AllFunctions _ r.prog.functions r.current w.earlier w.now;
      now = good;
      known =
          assign_name-IsBelow _ name (length fs) r.prog.function_index
            (omega (arith, length-all_functions fs fn))
            (IsBelow-le (length fs) _ r.prog.function_index
              (omega (arith, length-all_functions fs fn)) w.known);
      globals_known = w.globals_known;
      shared_waits = w.shared_waits;
      local_waits = w.local_waits;
    }

pub start_function-IsReading :
    {c d : ℕ} (rest : String) (r : Reading)
    → IsReading c d r
    → IfDone (IsReading c d) (start_function rest r)
unfolding start_function
start_function-IsReading {c} {d} rest r w = opened (cut b'(' rest)
  where
    name : String
    name = trim (before b'(' rest)

    fn : PtxFunction
    fn = empty_function name

    r' : Reading
    r' = record r {
      prog = record r.prog {
        functions = all_functions r.prog.functions r.current;
        function_index =
            assign_name name (length (all_functions r.prog.functions r.current))
              r.prog.function_index;
      };
      current = some fn;
    }

    signed :
        (o : Option PtxFunction)
        → IfSome (IsWellFormed w.a w.b) o
        → IfDone (IsReading c d) (elim o as (λ x. Parsing Reading) [
          | none ↦ refused
          | some fn' ↦ done (record r' { in_params = false; current = some fn' })
        ])
    signed none good = tt
    signed (some fn') good = started-IsReading r name fn' false w good

    closed :
        (o : Option (String × String))
        → IfDone (IsReading c d) (elim o as (λ x. Parsing Reading) [
          | none ↦ done (record r' { in_params = true })
          | some (inside, body) ↦ elim (parse_param_entries (entries inside) fn) [
            | none ↦ refused
            | some fn' ↦ done (record r' { in_params = false; current = some fn' })
          ]
        ])
    closed none = started-IsReading r name fn true w (empty_function-IsWellFormed name)
    closed (some (inside, body)) =
        signed (parse_param_entries (entries inside) fn)
          (parse_param_entries-IsWellFormed (entries inside) fn (empty_function-IsWellFormed name))

    opened :
        (o : Option (String × String))
        → IfDone (IsReading c d) (elim o as (λ x. Parsing Reading) [
          | none ↦ done (record r' { in_params = false })
          | some (name', behind) ↦ elim (cut b')' behind) [
            | none ↦ done (record r' { in_params = true })
            | some (inside, body) ↦ elim (parse_param_entries (entries inside) fn) [
              | none ↦ refused
              | some fn' ↦ done (record r' { in_params = false; current = some fn' })
            ]
          ]
        ])
    opened none = started-IsReading r name fn false w (empty_function-IsWellFormed name)
    opened (some (name', behind)) = closed (cut b')' behind)
