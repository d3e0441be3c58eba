-- ===== src/Occupancy/Liveness.antt =====
-- software/rouge-cuda/src/occupancy.cpp: `max_live_regs`, the estimate of the registers of a
-- kernel, and `kernel_stats`. A register goes by its name; the source numbers the names in the
-- order in which they are met, and keeps a bit for each number.
pub mod Names
pub mod Fixpoint
pub mod Rounds
pub mod Sound
mod Examples
use Prim.Native.String.{String, slice, len}
use text.Mathlib.Text.{find?}
use rouge_v.Base.{
  ℕ, zero, suc, ◌+◌, ◌-◌, ◌*◌, ◌<◌, Bool, true, false, not, ◌&&◌, ◌||◌, List, [], ◌∷◌, ◌++◌, map,
  Option, none, some, ltb, leb, ◌==◌, if◌then◌else◌, length, get_elem?,
}
use rouge_v.Base.Text.{same_name, starts_with}
use rouge_v.Base.Assoc.{lookup_name}
use rouge_v.Ptx.Layout.{is_positive}
use rouge_v.Ptx.Program.{PtxInstruction, PtxFunction, PtxGlobalVar, PtxProgram}
use rouge_v.Occupancy.{KernelStats}

-- A text from a place on.
abbrev pub from : ℕ → String → String
from k t = slice t k (len t)

abbrev pub is_bracketed : String → Bool
is_bracketed t = leb 2 (len t) && starts_with t "[" && same_name (from (len t - 1) t) "]"

abbrev pub cut_at : Option ℕ → String → String
cut_at none t = t
cut_at (some k) t = slice t 0 k

abbrev pub earlier : Option ℕ → Option ℕ → Option ℕ
earlier none q = q
earlier p none = p
earlier (some j) (some k) = if ltb j k then some j else some k

-- `if (pm != npos && pm > 0)`.
abbrev pub not_first : Option ℕ → Option ℕ
not_first none = none
not_first (some k) = if k == 0 then none else some k

pub reg_base : String → String
reg_base tok =
    let inner = if is_bracketed tok then slice tok 1 (len tok - 1) else tok in
    let front = cut_at (find? inner "|") inner in
    let name = cut_at (not_first (earlier (find? front "+") (find? front "-"))) front in
    if starts_with name "%" then from 1 name else name

-- `.pred` registers count nothing.
abbrev pub weight_of_bits : ℕ → ℕ
weight_of_bits bits = if leb bits 1 then 0 else if leb 64 bits then 2 else 1

pub reg_weight : PtxFunction → String → ℕ
reg_weight fn name = elim (lookup_name name fn.reg_bits) [
  | none ↦ 0
  | some bits ↦ weight_of_bits bits
]

pub declared_regs_bound : List (String × ℕ) → ℕ
declared_regs_bound [] = 0
declared_regs_bound ((name, bits) ∷ rest) = weight_of_bits bits + declared_regs_bound rest

-- `id_of`, as a list with no name for -1.
pub id_of : PtxFunction → String → List String
id_of fn tok =
    let base = reg_base tok in
    if same_name base "" || reg_weight fn base == 0 then [] else base ∷ []

pub ids_of : PtxFunction → List String → List String
ids_of fn [] = []
ids_of fn (tok ∷ toks) = id_of fn tok ++ ids_of fn toks

abbrev pub mentions : String → List String → Bool
mentions r [] = false
mentions r (s ∷ ss) = same_name s r || mentions r ss

-- `u.erase(std::remove(...))` for the names of the first operand.
abbrev pub without : List String → List String → List String
without gone [] = []
without gone (s ∷ ss) = if mentions s gone then without gone ss else s ∷ without gone ss

-- The entries of `defs`, `uses` and `succ` for one instruction.
pub record Effect : Type 0 where
  pub defs : List String
  pub uses : List String
  pub succ : List ℕ

abbrev pub first : List String → List String
first [] = []
first (a ∷ rest) = a ∷ []

abbrev pub behind_first : List String → List String
behind_first [] = []
behind_first (a ∷ rest) = rest

abbrev pub next_place : ℕ → ℕ → List ℕ
next_place n i = if ltb (i + 1) n then (i + 1) ∷ [] else []

abbrev pub branch_target : PtxFunction → List String → List ℕ
branch_target fn [] = elim (lookup_name "" fn.labels) [ none ↦ [] | some t ↦ t ∷ [] ]
branch_target fn (label ∷ rest) = elim (lookup_name label fn.labels) [ none ↦ [] | some t ↦ t ∷ [] ]

abbrev pub is_bar : String → Bool
is_bar op =
    same_name op "bar.sync"
    || same_name op "bar.warp.sync"
    || same_name op "barrier.sync"
    || starts_with op "membar."
    || starts_with op "fence."

-- The chain of tests of the loop over the body, behind the one for `call`.
pub effect_of : PtxFunction → ℕ → PtxInstruction → Effect
effect_of fn i ins =
    let n = length fn.body in
    let head = ids_of fn (first ins.args) in
    let tail = ids_of fn (behind_first ins.args) in
    if same_name ins.op "ret" || same_name ins.op "exit"
    then record { defs = []; uses = []; succ = [] }
    else if same_name ins.op "bra" || same_name ins.op "bra.uni"
    then record {
      defs = [];
      uses = [];
      succ = branch_target fn ins.args ++ (if same_name ins.pred "" then [] else next_place n i);
    }
    else if is_bar ins.op
    then record { defs = []; uses = []; succ = next_place n i }
    else if starts_with ins.op "st."
    then record { defs = []; uses = head ++ tail; succ = next_place n i }
    else if starts_with ins.op "atom." || starts_with ins.op "red."
    then record { defs = head ++ head; uses = without head tail; succ = next_place n i }
    else record {
      defs = if starts_with ins.op "setp." then [] else head;
      uses = tail;
      succ = next_place n i;
    }

pub effects_from : PtxFunction → ℕ → List PtxInstruction → List Effect
effects_from fn i [] = []
effects_from fn i (ins ∷ rest) = effect_of fn i ins ∷ effects_from fn (i + 1) rest

abbrev pub has_call : List PtxInstruction → Bool
has_call [] = false
has_call (ins ∷ rest) = starts_with ins.op "call" || has_call rest

pub distinct : List String → List String
distinct [] = []
distinct (s ∷ ss) = let rest = distinct ss in if mentions s rest then rest else s ∷ rest

-- The names met, each once.
pub registers : List Effect → List String
registers [] = []
registers (e ∷ es) =
    let rest = registers es in
    let fresh = distinct (e.defs ++ e.uses) in fresh ++ without fresh rest

-- `liveIn` and `liveOut`: a bit for a place of the body and a register.
abbrev pub Bits : Type 0
Bits = ℕ → String → Bool

pub record Live : Type 0 where
  pub live_in : Bits
  pub live_out : Bits

-- The rows of `n` places are clear. `liveIn[s]` of a successor that is no place, which a label at
-- the end of the body is, is read out of bounds: what the memory holds there is `beyond`.
abbrev pub no_bits : ℕ → Bits → Live
no_bits n beyond = record {
  live_in = λ i r. if ltb i n then false else beyond i r;
  live_out = λ i r. false;
}

abbrev pub set_row : Bits → ℕ → (String → Bool) → Bits
set_row bits i row j r = if j == i then row r else bits j r

abbrev pub any_live : Bits → List ℕ → String → Bool
any_live bits [] r = false
any_live bits (s ∷ ss) r = bits s r || any_live bits ss r

-- The rows of one place: what leaves it, then what enters it.
abbrev pub out_row : Effect → Live → ℕ → String → Bool
out_row e l i r = l.live_out i r || any_live l.live_in e.succ r

abbrev pub in_row : Effect → Live → ℕ → String → Bool
in_row e l i r = l.live_in i r || (mentions r e.uses || out_row e l i r && not (mentions r e.defs))

abbrev pub flow : Effect → ℕ → Live → Live
flow e i l = record {
  live_in = set_row l.live_in i (in_row e l i);
  live_out = set_row l.live_out i (out_row e l i);
}

-- Some bit of a row is new.
abbrev pub grows : List String → (String → Bool) → (String → Bool) → Bool
grows [] old new = false
grows (r ∷ rs) old new = not (old r) && new r || grows rs old new

-- The inner `for`, from the last place to the first: the rows, and whether a bit changed.
pub sweep : List String → ℕ → List Effect → Live → Live × Bool
sweep regs i [] l = (l, false)
sweep regs i (e ∷ es) l =
    let (l', changed) = sweep regs (i + 1) es l in
    (
      flow e i l',
      changed
          || grows regs (l'.live_out i) (out_row e l' i)
          || grows regs (l'.live_in i) (in_row e l' i),
    )

-- `for (iter = 0; iter < 100000 && changed; ++iter)`: the rounds left, and whether the last one
-- changed a bit.
pub iterate : List String → List Effect → ℕ → Live → Live × Bool
iterate regs es zero l = (l, true)
iterate regs es (suc rounds) l =
    let (l', changed) = sweep regs 0 es l in
    let rest = iterate regs es rounds l' in if changed then rest else (l', false)

abbrev pub max_rounds : ℕ
max_rounds = 100_000

abbrev pub weigh : PtxFunction → List String → (String → Bool) → ℕ
weigh fn [] row = 0
weigh fn (r ∷ rs) row = (if row r then reg_weight fn r else 0) + weigh fn rs row

-- The heaviest row of the first `n`.
pub heaviest : PtxFunction → List String → Bits → ℕ → ℕ
heaviest fn regs out zero = 0
heaviest fn regs out (suc n) =
    let best = heaviest fn regs out n in
    let w = weigh fn regs (out n) in if ltb best w then w else best

-- `none` is -1.
pub max_live_regs : Bits → PtxFunction → Option ℕ
max_live_regs beyond fn =
    if length fn.body == 0 || has_call fn.body
    then none
    else let es = effects_from fn 0 fn.body in
      let regs = registers es in
      let (l, changed) = iterate regs es max_rounds (no_bits (length fn.body) beyond) in
      some (heaviest fn regs l.live_out (length fn.body))

abbrev pub or_else : Option ℕ → ℕ → ℕ
or_else none other = other
or_else (some n) other = if n == 0 then other else n

abbrev pub const_bytes : List PtxGlobalVar → ℕ
const_bytes [] = 0
const_bytes (g ∷ gs) =
    (if g.is_const
      then g.global_elem_bytes * (if is_positive g.global_count then g.global_count else 1)
      else 0)
    + const_bytes gs

pub kernel_stats : Bits → PtxProgram → ℕ → Option KernelStats
kernel_stats beyond prog fn_index = elim (get_elem? prog.functions fn_index) [
  | none ↦ none
  | some fn ↦ some (record {
    num_regs =
        or_else (max_live_regs beyond fn) (or_else (some (declared_regs_bound fn.reg_bits)) 1);
    static_smem = fn.shared_size;
    local_size = fn.local_size;
    const_size = const_bytes prog.globals;
    target_sm = prog.target_sm;
  })
]
