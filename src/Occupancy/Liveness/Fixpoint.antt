-- ===== src/Occupancy/Liveness/Fixpoint.antt =====
-- Where a round of the analysis changes no bit, the rows satisfy its equations.
use Prim.Native.String.{String}
use rouge_v.Base.{
  ℕ, zero, suc, ◌+◌, ◌≡◌, Bool, true, false, not, ◌&&◌, List, [], ◌∷◌, arith, refl, sym, Bool-cases,
  inl, inr, ◌∙◌, ap,
}
use rouge_v.Base.Text.{same_name, same_name_iff}
use rouge_v.Occupancy.Liveness.{
  Effect, Live, Bits, mentions, any_live, out_row, in_row, flow, grows, sweep, iterate,
}

-- Two states have the same bits of the registers.
pub record Agree (regs : List String) (l l' : Live) : Type 0 where
  pub same_in : (j : ℕ) (r : String) → mentions r regs ≡ true → l'.live_in j r ≡ l.live_in j r
  pub same_out : (j : ℕ) (r : String) → mentions r regs ≡ true → l'.live_out j r ≡ l.live_out j r

-- The equations of the analysis at one place.
pub record IsStable (regs : List String) (e : Effect) (i : ℕ) (l : Live) : Type 0 where
  pub stable_out : (r : String) → mentions r regs ≡ true → out_row e l i r ≡ l.live_out i r
  pub stable_in : (r : String) → mentions r regs ≡ true → in_row e l i r ≡ l.live_in i r

abbrev pub Settled : List String → ℕ → List Effect → Live → Type 0
Settled regs i [] l = Unit {0}
Settled regs i (e ∷ es) l = IsStable regs e i l × Settled regs (i + 1) es l

-- A row that does not grow has the bits that it had.
grows_none :
    (regs : List String) (old new : String → Bool) (r : String)
    → grows regs old new ≡ false
    → mentions r regs ≡ true
    → (old r ≡ true → new r ≡ true)
    → new r ≡ old r
grows_none [] old new r still in_regs more = absurd (cc)
grows_none (s ∷ regs) old new r still in_regs more = elim (Bool-cases (same_name s r)) [
  | inl same ↦
      let e : s ≡ r = (same_name_iff s r).0 same in
      let first : (not (old s) && new s) ≡ false = ground arith in
      let here = rw e at first in ground (arith, here, more)
  | inr other ↦ grows_none regs old new r (ground arith) (ground arith) more
]

any_live-eq :
    (regs : List String) (bits bits' : Bits) (ss : List ℕ) (r : String)
    → ((j : ℕ) → bits' j r ≡ bits j r)
    → any_live bits' ss r ≡ any_live bits ss r
any_live-eq regs bits bits' [] r same = refl
any_live-eq regs bits bits' (s ∷ ss) r same =
    ground (arith, same s, any_live-eq regs bits bits' ss r same)

-- The equations carry over to a state with the same bits.
IsStable-Agree :
    (regs : List String) (e : Effect) (i : ℕ) (l l' : Live)
    → Agree regs l l'
    → IsStable regs e i l'
    → IsStable regs e i l
IsStable-Agree regs e i l l' a s = record {
  stable_out =
      λ r h. let out = out_eq r h in ground (arith, out, a.same_out i r h, s.stable_out r h);
  stable_in = λ r h. let out = out_eq r h in ground (arith, out, a.same_in i r h, s.stable_in r h);
}
  where
    out_eq : (r : String) → mentions r regs ≡ true → out_row e l' i r ≡ out_row e l i r
    out_eq r h = ground (
      arith,
      a.same_out i r h,
      any_live-eq regs l.live_in l'.live_in e.succ r (λ j. a.same_in j r h),
    )

pub Settled-Agree :
    (regs : List String) (i : ℕ) (es : List Effect) (l l' : Live)
    → Agree regs l l'
    → Settled regs i es l'
    → Settled regs i es l
Settled-Agree regs i [] l l' a s = tt
Settled-Agree regs i (e ∷ es) l l' a s =
    (IsStable-Agree regs e i l l' a s.0, Settled-Agree regs (i + 1) es l l' a s.1)

Agree-trans : (regs : List String) (l m n : Live) → Agree regs l m → Agree regs m n → Agree regs l n
Agree-trans regs l m n p q = record {
  same_in = λ j r h. q.same_in j r h ∙ p.same_in j r h;
  same_out = λ j r h. q.same_out j r h ∙ p.same_out j r h;
}

pub Agree-sym : (regs : List String) (l m : Live) → Agree regs l m → Agree regs m l
Agree-sym regs l m p = record {
  same_in = λ j r h. sym (p.same_in j r h);
  same_out = λ j r h. sym (p.same_out j r h);
}

-- A step that grows no row changes no bit, and its equations hold already.
flow_still :
    (regs : List String) (e : Effect) (i : ℕ) (l : Live)
    → grows regs (l.live_out i) (out_row e l i) ≡ false
    → grows regs (l.live_in i) (in_row e l i) ≡ false
    → IsStable regs e i l
flow_still regs e i l out_still in_still = record {
  stable_out =
      λ r h. grows_none regs (l.live_out i) (out_row e l i) r out_still h (λ old. ground arith);
  stable_in =
      λ r h. grows_none regs (l.live_in i) (in_row e l i) r in_still h (λ old. ground arith);
}

flow-Agree :
    (regs : List String) (e : Effect) (i : ℕ) (l : Live)
    → IsStable regs e i l
    → Agree regs l (flow e i l)
flow-Agree regs e i l s = record {
  same_in = λ j r h. ground (arith, s.stable_in r h, ap (λ k. l.live_in k r));
  same_out = λ j r h. ground (arith, s.stable_out r h);
}

-- A sweep that reports no change left the bits alone, and all equations hold of them.
pub sweep_still :
    (regs : List String) (i : ℕ) (es : List Effect) (l : Live)
    → (sweep regs i es l).1 ≡ false
    → Agree regs l (sweep regs i es l).0 × Settled regs i es l
unfolding sweep
sweep_still regs i [] l still = (record { same_in = λ j r h. refl; same_out = λ j r h. refl }, tt)
sweep_still regs i (e ∷ es) l still =
    let l' = (sweep regs (i + 1) es l).0 in
    let later = sweep_still regs (i + 1) es l (ground arith) in
    let stable = flow_still regs e i l' (ground arith) (ground arith) in
    (
      Agree-trans regs l l' (flow e i l') later.0 (flow-Agree regs e i l' stable),
      (IsStable-Agree regs e i l l' later.0 stable, later.1),
    )

-- The rounds end in a state of which all equations hold, if the last one changed nothing.
pub iterate-Settled :
    (regs : List String) (es : List Effect) (rounds : ℕ) (l : Live)
    → (iterate regs es rounds l).1 ≡ false
    → Settled regs 0 es (iterate regs es rounds l).0
unfolding iterate
iterate-Settled regs es zero l still = absurd (cc)
iterate-Settled regs es (suc rounds) l still =
    let l' = (sweep regs 0 es l).0 in
    elim (Bool-cases (sweep regs 0 es l).1) [
      | inl changed ↦ rw changed (iterate-Settled regs es rounds l' (ground arith))
      | inr same ↦
          let at_rest = sweep_still regs 0 es l same in
          rw same (Settled-Agree regs 0 es l' l (Agree-sym regs l l' at_rest.0) at_rest.1)
    ]
