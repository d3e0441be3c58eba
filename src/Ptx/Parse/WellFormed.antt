-- ===== src/Ptx/Parse/WellFormed.antt =====
-- The programs that the parser makes.
pub mod Functions
mod Lines
mod Globals
pub mod Readings
mod Loop
use Prim.Native.String.{String}
use mathlib.Core.Path.{subst}
use rouge_v.Base.{
  ℕ, suc, ◌+◌, ◌-◌, ◌^◌, ◌<◌, ◌≤◌, List, [], ◌∷◌, Option, none, some, ◌≡◌, refl, arith, length, map,
  ap, ◌∙◌,
}
use rouge_v.Base.Chars.{split}
use rouge_v.Ptx.Program.{PtxFunction, PtxProgram}
use rouge_v.Ptx.Parse.Declarations.{declare_shared, declare_local}
use rouge_v.Ptx.Parse.Module.{
  Reading, Parsing, done, refused, out_of_range, all_functions, parse_lines, declare_all, finish,
  no_lines, parse_ptx,
}
use rouge_v.Ptx.Parse.WellFormed.Functions.{
  IsBelow, IsBelow-le, IsWellFormed, IsWellFormed-le, declare_shared-IsWellFormed,
  declare_local-IsWellFormed, shared_cost, local_cost, line_shared, line_local, text_cost, HasRoom,
}
use rouge_v.Ptx.Parse.WellFormed.Readings.{
  AllFunctions, AllFunctions-more, waiting_cost, IfDone, IsReading, all_functions-AllFunctions,
}
use rouge_v.Ptx.Parse.WellFormed.Loop.{parse_lines-IsReading}

-- Well formed, with sizes in the range of an `int`.
abbrev pub IsFunction : PtxFunction → Type 0
IsFunction = IsWellFormed (2 ^ 31 - 1) (2 ^ 31 - 1)

-- Every function is well formed, and the indices of functions and globals are places in their
-- lists.
pub record IsProgram (prog : PtxProgram) : Type 0 where
  pub well_formed : AllFunctions IsFunction prog.functions
  pub functions_known : IsBelow (length prog.functions) prog.function_index
  pub globals_known : IsBelow (length prog.globals) prog.global_index

module _ (declare : String → PtxFunction → PtxFunction) (cost : String → ℕ)
    (P : ℕ → PtxFunction → Type 0)
    (keeps : (n : ℕ) (d : String) (fn : PtxFunction)
      → n + cost d < 2 ^ 31
      → P n fn
      → P (n + cost d) (declare d fn)) where
  map-AllFunctions :
      (n : ℕ) (d : String) (fs : List PtxFunction)
      → n + cost d < 2 ^ 31
      → AllFunctions (P n) fs
      → AllFunctions (P (n + cost d)) (map (declare d) fs)
        × (length (map (declare d) fs) ≡ length fs)
  map-AllFunctions n d [] room all = (tt, refl)
  map-AllFunctions n d (fn ∷ fs) room all =
      let rest = map-AllFunctions n d fs room all.1 in
      ((keeps n d fn room all.0, rest.0), ap suc rest.1)

  declare_all-AllFunctions :
      (n : ℕ) (ds : List String) (fs : List PtxFunction)
      → n + waiting_cost cost ds < 2 ^ 31
      → AllFunctions (P n) fs
      → AllFunctions (P (n + waiting_cost cost ds)) (declare_all declare ds fs)
        × (length (declare_all declare ds fs) ≡ length fs)
  unfolding declare_all
  declare_all-AllFunctions n [] fs room all =
      let same : n ≡ n + 0 = omega arith in (subst (λ k. AllFunctions (P k) fs) same all, refl)
  declare_all-AllFunctions n (d ∷ ds) fs room all =
      let same : n + cost d + waiting_cost cost ds ≡ n + (cost d + waiting_cost cost ds) =
        omega arith in
      let here = map-AllFunctions n d fs (omega (arith, room)) all in
      let rest =
        declare_all-AllFunctions (n + cost d) ds (map (declare d) fs) (omega (arith, room))
          here.0 in
      (
        subst (λ k. AllFunctions (P k) (declare_all declare ds (map (declare d) fs))) same rest.0,
        rest.1 ∙ here.1,
      )

finish-IsProgram :
    (c d : ℕ) (r : Reading) → c < 2 ^ 31 → d < 2 ^ 31 → IsReading c d r → IsProgram (finish r)
unfolding finish
finish-IsProgram c d r room_s room_l w =
    let fs = all_functions r.prog.functions r.current in
    let all = all_functions-AllFunctions _ r.prog.functions r.current w.earlier w.now in
    let a' = w.a + waiting_cost shared_cost r.extern_shared in
    let externs =
      declare_all-AllFunctions declare_shared shared_cost (λ n. IsWellFormed n w.b)
        (λ n s fn. declare_shared-IsWellFormed s fn) w.a r.extern_shared fs
        (omega (arith, room_s, w.shared_waits)) all in
    let shared =
      declare_all-AllFunctions declare_shared shared_cost (λ n. IsWellFormed n w.b)
        (λ n s fn. declare_shared-IsWellFormed s fn) a' r.module_shared _
        (omega (arith, room_s, w.shared_waits)) externs.0 in
    let local =
      declare_all-AllFunctions declare_local local_cost
        (λ n. IsWellFormed (a' + waiting_cost shared_cost r.module_shared) n)
        (λ n s fn. declare_local-IsWellFormed s fn) w.b r.module_local _
        (omega (arith, room_l, w.local_waits)) shared.0 in
    let same = local.1 ∙ (shared.1 ∙ externs.1) in
    record {
      well_formed =
          AllFunctions-more _ _
            (λ fn.
              IsWellFormed-le fn (omega (arith, room_s, w.shared_waits))
                (omega (arith, room_l, w.local_waits)))
            _ local.0;
      functions_known =
          IsBelow-le (length fs) _ r.prog.function_index (omega (arith, same)) w.known;
      globals_known = w.globals_known;
    }

pub parse_ptx-IsProgram :
    (image : String) (prog : PtxProgram)
    → HasRoom image
    → parse_ptx image ≡ done prog
    → IsProgram prog
unfolding parse_ptx
parse_ptx-IsProgram image prog room parsed =
    let good : IfDone IsProgram (parse_ptx image) = go (parse_lines (split 10 image) no_lines) (
      parse_lines-IsReading (split 10 image) 0 0 no_lines (omega (arith, room.shared_fits))
        (omega (arith, room.local_fits)) start) in
    rw parsed at good
  where
    start : IsReading 0 0 no_lines
    start = record {
      a = 0;
      b = 0;
      earlier = tt;
      now = tt;
      known = tt;
      globals_known = tt;
      shared_waits = omega arith;
      local_waits = omega arith;
    }

    go :
        (o : Parsing Reading)
        → IfDone
            (IsReading
              (0 + text_cost line_shared (split 10 image))
              (0 + text_cost line_local (split 10 image)))
            o
        → IfDone IsProgram (elim o as (λ x. Parsing PtxProgram) [
          | done r ↦ done (finish r)
          | refused ↦ refused
          | out_of_range ↦ out_of_range
        ])
    go (done r) w =
        finish-IsProgram _ _ r (omega (arith, room.shared_fits)) (omega (arith, room.local_fits)) w
    go refused w = tt
    go out_of_range w = tt
