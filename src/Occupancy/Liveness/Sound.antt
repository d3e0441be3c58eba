-- ===== src/Occupancy/Liveness/Sound.antt =====
-- The estimate of `max_live_regs` covers every register that a path may still read.
use Prim.Native.String.{String}
use native.Mathlib.Nat.{le_trans}
use native.Mathlib.Decide.{dec_lt}
use rouge_v.Base.{
  ℕ, zero, suc, ◌+◌, ◌*◌, ◌≤◌, ◌<◌, ◌≡◌, ◌≢◌, Bool, true, false, List, [], ◌∷◌, some, length,
  get_elem?, arith, refl, Bool-cases, inl, inr, ◌==◌,
}
use rouge_v.Base.Assoc.{member, lookup_name}
use rouge_v.Ptx.Program.{PtxFunction, PtxInstruction}
use rouge_v.Occupancy.Liveness.{
  Effect, Live, Bits, mentions, any_live, iterate, registers, effects_from, has_call, max_rounds,
  weigh, heaviest, max_live_regs, no_bits,
}
use rouge_v.Occupancy.Liveness.Names.{mentions-append, mentions-registers}
use rouge_v.Occupancy.Liveness.Fixpoint.{Settled, IsStable, iterate-Settled}
use rouge_v.Occupancy.Liveness.Rounds.{iterate_rests}

-- From place `i` a path of successors leads to a use of `r` with no definition of `r` before it.
pub data IsLive (es : List Effect) (r : String) : ℕ → Type 0 where
  used : {i : ℕ} {e : Effect} → get_elem? es i ≡ some e → mentions r e.uses ≡ true → IsLive es r i
  passed :
      {i j : ℕ} {e : Effect}
      → get_elem? es i ≡ some e
      → member j e.succ ≡ true
      → mentions r e.defs ≡ false
      → IsLive es r j
      → IsLive es r i

abbrev pub IsLiveOut : List Effect → String → ℕ → Type 0
IsLiveOut es r i =
    (e : Effect) × (j : ℕ) × (get_elem? es i ≡ some e) × (member j e.succ ≡ true) × IsLive es r j

live-register :
    (es : List Effect) (r : String) {i : ℕ} → IsLive es r i → mentions r (registers es) ≡ true
live-register es r (used {i} {e} found use_r) =
    mentions-registers r es i e found (ground (arith, mentions-append r e.defs e.uses))
live-register es r (passed found step clear rest) = live-register es r rest

Settled-IsStable :
    (regs : List String) (k : ℕ) (es : List Effect) (l : Live) (i : ℕ) (e : Effect)
    → Settled regs k es l
    → get_elem? es i ≡ some e
    → IsStable regs e (k + i) l
Settled-IsStable regs k [] l i e s found = absurd (cc)
Settled-IsStable regs k (e' ∷ es) l zero e s found =
    let same : e' ≡ e = cc in let here : k + 0 ≡ k = omega arith in rw (here, sym_of same) s.0
  where
    sym_of : e' ≡ e → e ≡ e'
    sym_of p = cc
Settled-IsStable regs k (e' ∷ es) l (suc i) e s found =
    let there : k + suc i ≡ k + 1 + i = omega arith in
    rw there (Settled-IsStable regs (k + 1) es l i e s.1 found)

any_live_at :
    (bits : Bits) (ss : List ℕ) (r : String) (j : ℕ)
    → member j ss ≡ true
    → bits j r ≡ true
    → any_live bits ss r ≡ true
unfolding member
any_live_at bits [] r j step live = absurd (cc)
any_live_at bits (s ∷ ss) r j step live = elim (Bool-cases (s == j)) [
  | inl same ↦ let e : j ≡ s = ground arith in let here = rw e at live in ground (arith, here)
  | inr other ↦ ground (arith, any_live_at bits ss r j)
]

module _ (es : List Effect) (l : Live) (settled : Settled (registers es) 0 es l) where
  stable : (i : ℕ) (e : Effect) → get_elem? es i ≡ some e → IsStable (registers es) e i l
  stable i e found =
      let same : 0 + i ≡ i = omega arith in
      rw same at (Settled-IsStable (registers es) 0 es l i e settled found)

  live-in : (r : String) {i : ℕ} → IsLive es r i → l.live_in i r ≡ true
  live-in r (used {i} {e} found use_r) =
      let is_reg = live-register es r (used found use_r) in
      let eq = (stable i e found).stable_in r is_reg in ground (arith, eq, use_r)
  live-in r (passed {i} {j} {e} found step clear rest) =
      let is_reg = live-register es r rest in
      let eq = (stable i e found).stable_in r is_reg in
      let below = any_live_at l.live_in e.succ r j step (live-in r rest) in
      ground (arith, eq, below, clear)

  live-out : (r : String) (i : ℕ) → IsLiveOut es r i → l.live_out i r ≡ true
  live-out r i (e, j, found, step, rest) =
      let eq = (stable i e found).stable_out r (live-register es r rest) in
      let below = any_live_at l.live_in e.succ r j step (live-in r rest) in
      ground (arith, eq, below)

weigh_mono :
    (fn : PtxFunction) (regs : List String) (row row' : String → Bool)
    → ((r : String) → row r ≡ true → row' r ≡ true)
    → weigh fn regs row ≤ weigh fn regs row'
weigh_mono fn [] row row' more = omega arith
weigh_mono fn (r ∷ rs) row row' more = ground (arith, more r, weigh_mono fn rs row row' more)

le-heaviest :
    (fn : PtxFunction) (regs : List String) (out : Bits) (n i : ℕ)
    → i < n
    → weigh fn regs (out i) ≤ heaviest fn regs out n
unfolding heaviest
le-heaviest fn regs out zero i h = absurd (omega arith)
le-heaviest fn regs out (suc n) i h = elim (dec_lt i n) [
  | yes before ↦ ground (arith, le-heaviest fn regs out n i before)
  | no last ↦ let e : i ≡ n = omega arith in rw e (ground arith)
]

length-effects_from :
    (fn : PtxFunction) (i : ℕ) (body : List PtxInstruction)
    → length (effects_from fn i body) ≡ length body
unfolding effects_from
length-effects_from fn i [] = refl
length-effects_from fn i (ins ∷ rest) = omega (arith, length-effects_from fn (i + 1) rest)

-- For a body that is not empty and calls nothing, whose labels are all in front of an instruction,
-- and with fewer bits than rounds, the estimate is a number, and any set of registers that are live
-- behind an instruction weighs at most that.
pub max_live_regs_sound :
    (beyond : Bits) (fn : PtxFunction)
    → length fn.body ≢ 0
    → has_call fn.body ≡ false
    → ((label : String) (place : ℕ)
        → lookup_name label fn.labels ≡ some place
        → place < length fn.body)
    → length fn.body * (2 * length (registers (effects_from fn 0 fn.body))) < max_rounds
    → (best : ℕ) × (max_live_regs beyond fn ≡ some best)
      × ((i : ℕ) (row : String → Bool)
          → i < length fn.body
          → ((r : String) → row r ≡ true → IsLiveOut (effects_from fn 0 fn.body) r i)
          → weigh fn (registers (effects_from fn 0 fn.body)) row ≤ best)
unfolding max_live_regs
max_live_regs_sound beyond fn filled no_call inside few =
    let start = no_bits (length fn.body) beyond in
    let es = effects_from fn 0 fn.body in
    let regs = registers es in
    let l = (iterate regs es max_rounds start).0 in
    let same = length-effects_from fn 0 fn.body in
    let few' : length es * (2 * length regs) < max_rounds = rw same few in
    let rests = iterate_rests regs es max_rounds start (omega (arith, few')) in
    let settled = iterate-Settled regs es max_rounds start rests in
    let not_empty : (length fn.body == 0) ≡ false = ground arith in
    (
      heaviest fn regs l.live_out (length fn.body),
      rw (not_empty, no_call) refl,
      λ i row before live.
          le_trans
            (weigh_mono fn regs row (l.live_out i) (λ r h. live-out es l settled r i (live r h)))
            (le-heaviest fn regs l.live_out (length fn.body) i before),
    )
