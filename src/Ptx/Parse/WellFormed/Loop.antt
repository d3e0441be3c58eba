-- ===== src/Ptx/Parse/WellFormed/Loop.antt =====
-- The loop over the lines: what every line keeps of a reading.
use Prim.Native.String.{String}
use rouge_v.Base.{
  ℕ, ◌+◌, ◌≤◌, ◌<◌, ◌^◌, arith, Bool, not, List, [], ◌∷◌, Option, none, some, ◌≡◌, refl,
  if◌then◌else◌, if_elim,
}
use rouge_v.Base.Text.{same_name, starts_with}
use rouge_v.Base.Chars.{is_empty, trim, contains}
use rouge_v.Ptx.Program.{PtxFunction}
use rouge_v.Ptx.Parse.{strip_comment}
use rouge_v.Ptx.Parse.Module.{
  Reading, Parsing, done, refused, out_of_range, module_line, param_line, body_line, inner_line,
  start_function, parse_line, parse_lines,
}
use rouge_v.Ptx.Parse.WellFormed.Functions.{
  IsWellFormed, IfSome, IsWellFormed-le, line_shared, line_local, text_cost,
}
use rouge_v.Ptx.Parse.WellFormed.Lines.{parse_param_entries-IsWellFormed, body_line-IsWellFormed}
use rouge_v.Ptx.Parse.WellFormed.Readings.{
  IfDone, IsReading, IsReading-le, module_line-IsReading, with_current-IsReading,
  start_function-IsReading,
}

IfDone-le :
    {c d c' d' : ℕ} (o : Parsing Reading)
    → c ≤ c'
    → d ≤ d'
    → IfDone (IsReading c d) o
    → IfDone (IsReading c' d') o
IfDone-le (done r) lc ld w = IsReading-le r lc ld w
IfDone-le refused lc ld w = tt
IfDone-le out_of_range lc ld w = tt

module _ {c d : ℕ} where
  -- A line of a function that gives the function anew, or refuses.
  renewed-IsReading :
      (r : Reading) (fn : PtxFunction) (in_params : Bool) (o : Option PtxFunction) (k l : ℕ)
      (w : IsReading c d r)
      → r.current ≡ some fn
      → IfSome (IsWellFormed (w.a + k) (w.b + l)) o
      → IfDone (IsReading (c + k) (d + l)) (elim o as (λ x. Parsing Reading) [
        | none ↦ refused
        | some fn' ↦ done (record r { current = some fn'; in_params = in_params })
      ])
  renewed-IsReading r fn in_params none k l w here good = tt
  renewed-IsReading r fn in_params (some fn') k l w here good =
      with_current-IsReading r fn fn' in_params k l w here good

  param_line-IsReading :
      (s : String) (fn : PtxFunction) (r : Reading) (k l : ℕ) (w : IsReading c d r)
      → r.current ≡ some fn
      → IsWellFormed w.a w.b fn
      → IfDone (IsReading (c + k) (d + l)) (param_line s fn r)
  unfolding param_line
  param_line-IsReading s fn r k l w here good =
      let more = IsReading-le r (omega arith) (omega arith) w in
      let good' = IsWellFormed-le fn (omega arith) (omega arith) good in
      if_elim (IfDone (IsReading (c + k) (d + l))) (same_name s ")") _ _
        (record {
          a = more.a;
          b = more.b;
          earlier = more.earlier;
          now = more.now;
          known = more.known;
          globals_known = more.globals_known;
          shared_waits = more.shared_waits;
          local_waits = more.local_waits;
        })
        (if_elim (IfDone (IsReading (c + k) (d + l))) (starts_with s ".param") _ _
          (renewed-IsReading r fn (not (contains ")" s)) _ k l w here
            (parse_param_entries-IsWellFormed _ fn good'))
          more)

  module _ (s : String) (room_s : c + line_shared s < 2 ^ 31)
      (room_l : d + line_local s < 2 ^ 31) where
    inner_line-IsReading :
        (r : Reading)
        → IsReading c d r
        → IfDone (IsReading (c + line_shared s) (d + line_local s)) (inner_line s r)
    unfolding inner_line
    inner_line-IsReading r w = go r.current refl w.now
      where
        Next : Parsing Reading → Type 0
        Next = IfDone (IsReading (c + line_shared s) (d + line_local s))

        go :
            (o : Option PtxFunction)
            → r.current ≡ o
            → IfSome (IsWellFormed w.a w.b) o
            → Next (elim o as (λ x. Parsing Reading) [
              | none ↦ done (module_line s r)
              | some fn ↦ if r.in_params then param_line s fn r else elim (body_line s fn) [
                | none ↦ refused
                | some fn' ↦ done (record r { current = some fn' })
              ]
            ])
        go none here good = module_line-IsReading s r w
        go (some fn) here good =
            if_elim Next r.in_params _ _
              (param_line-IsReading s fn r (line_shared s) (line_local s) w here good)
              (renewed-IsReading r fn r.in_params (body_line s fn) (line_shared s) (line_local s) w
                here
                (body_line-IsWellFormed s fn (omega (arith, room_s, w.shared_waits))
                  (omega (arith, room_l, w.local_waits)) good))

    parse_line-IsReading :
        (r : Reading)
        → IsReading c d r
        → IfDone (IsReading (c + line_shared s) (d + line_local s)) (parse_line s r)
    unfolding parse_line
    parse_line-IsReading r w =
        let Next : Parsing Reading → Type 0 =
          IfDone (IsReading (c + line_shared s) (d + line_local s)) in
        let started : (rest : String) → Next (start_function rest r) = λ rest.
          IfDone-le (start_function rest r) (omega arith) (omega arith)
            (start_function-IsReading rest r w) in
        if_elim Next (is_empty s) _ _ (IsReading-le r (omega arith) (omega arith) w) (
          if_elim Next (same_name s ".visible .entry") _ _ tt (
            if_elim Next (starts_with s ".visible .entry") _ _ (started _)
              (if_elim Next (starts_with s ".entry ") _ _ (started _) (inner_line-IsReading r w))))

-- What the lines of a text declare has room behind what is there.
pub parse_lines-IsReading :
    (lines : List String) (c d : ℕ) (r : Reading)
    → c + text_cost line_shared lines < 2 ^ 31
    → d + text_cost line_local lines < 2 ^ 31
    → IsReading c d r
    → IfDone
        (IsReading (c + text_cost line_shared lines) (d + text_cost line_local lines))
        (parse_lines lines r)
unfolding parse_lines
parse_lines-IsReading [] c d r room_s room_l w = IsReading-le r (omega arith) (omega arith) w
parse_lines-IsReading (line ∷ lines) c d r room_s room_l w =
    let s = trim (strip_comment line) in
    go (parse_line s r) (parse_line-IsReading s (omega (arith, room_s)) (omega (arith, room_l)) r w)
      (λ r' h. parse_lines-IsReading lines _ _ r' (omega (arith, room_s)) (omega (arith, room_l)) h)
  where
    s : String
    s = trim (strip_comment line)

    After : Parsing Reading → Type 0
    After = IfDone (
        IsReading (c + line_shared s + text_cost line_shared lines)
          (d + line_local s + text_cost line_local lines))

    Next : Parsing Reading → Type 0
    Next = IfDone (
        IsReading (c + (line_shared s + text_cost line_shared lines))
          (d + (line_local s + text_cost line_local lines)))

    go :
        (o : Parsing Reading)
        → IfDone (IsReading (c + line_shared s) (d + line_local s)) o
        → ((r' : Reading)
            → IsReading (c + line_shared s) (d + line_local s) r'
            → After (parse_lines lines r'))
        → Next (elim o as (λ x. Parsing Reading) [
          | done r' ↦ parse_lines lines r'
          | refused ↦ refused
          | out_of_range ↦ out_of_range
        ])
    go (done r') h rest = IfDone-le (parse_lines lines r') (omega arith) (omega arith) (rest r' h)
    go refused h rest = tt
    go out_of_range h rest = tt
