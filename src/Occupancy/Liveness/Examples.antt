-- ===== src/Occupancy/Liveness/Examples.antt =====
-- The estimate of a loop that adds to a 64-bit register.
use Prim.Native.String.{String}
use rouge_v.Base.{
  false, Bool-cases, inl, inr, ℕ, ◌*◌, ◌≤◌, ◌<◌, ◌≡◌, Bool, true, [], ◌∷◌, some, refl, arith,
  length,
}
use rouge_v.Base.Text.{same_name}
use rouge_v.Base.Assoc.{lookup_name}
use rouge_v.Ptx.Program.{PtxFunction}
use rouge_v.Occupancy.Liveness.{
  reg_base, reg_weight, id_of, ids_of, effect_of, effects_from, registers, distinct, weigh, sweep,
  iterate, heaviest, max_live_regs, max_rounds, Bits,
}
use rouge_v.Occupancy.Liveness.Sound.{IsLiveOut, max_live_regs_sound}

abbrev loop : PtxFunction
loop = record {
  function_name = "loop";
  params = [];
  body =
      record { op = "mov.u64"; pred = ""; args = "rd1" ∷ "0" ∷ [] }
      ∷ record { op = "add.u64"; pred = ""; args = "rd1" ∷ "rd1" ∷ "r2" ∷ [] }
      ∷ record { op = "setp.lt.u64"; pred = ""; args = "p1" ∷ "rd1" ∷ "9" ∷ [] }
      ∷ record { op = "bra"; pred = "p1"; args = "AGAIN" ∷ [] }
      ∷ record { op = "st.global.u64"; pred = ""; args = "[%rd1+8]" ∷ "r2" ∷ [] }
      ∷ record { op = "ret"; pred = ""; args = [] }
      ∷ [];
  labels = ("AGAIN", 1) ∷ [];
  reg_bits = ("rd1", 64) ∷ ("r2", 32) ∷ ("p1", 1) ∷ [];
  shared_vars = [];
  shared_size = 0;
  local_vars = [];
  local_size = 0;
  params_blob_size = 0;
}

loop_few : length loop.body * (2 * length (registers (effects_from loop 0 loop.body))) < max_rounds
unfolding registers distinct effects_from effect_of ids_of id_of reg_base reg_weight lookup_name
    max_rounds
loop_few = omega arith

-- The only label of the loop is the place 1.
loop_labels : (label : String) (place : ℕ) → lookup_name label loop.labels ≡ some place → place < 6
unfolding lookup_name
loop_labels label place found = elim (Bool-cases (same_name "AGAIN" label)) [
  | inl same ↦ let here = rw same at found in let e : 1 ≡ place = cc in omega (arith, e)
  | inr other ↦ absurd (let here = rw other at found in cc)
]

abbrev nothing_beyond : Bits
nothing_beyond i r = false

loop_estimate : max_live_regs nothing_beyond loop ≡ some 3
unfolding max_live_regs iterate sweep heaviest registers distinct effects_from effect_of ids_of
    id_of reg_base reg_weight lookup_name max_rounds
loop_estimate = refl

-- `red` has no destination, but its address is taken for one.
red_address :
    effect_of loop 0 (record { op = "red.global.add.u32"; pred = ""; args = "[rd1]" ∷ "r2" ∷ [] })
    ≡ record { defs = "rd1" ∷ "rd1" ∷ []; uses = "r2" ∷ []; succ = 1 ∷ [] }
unfolding effect_of ids_of id_of reg_base reg_weight lookup_name
red_address = refl

-- A `ret` under a predicate has no successor, though the thread may go on.
ret_under_predicate :
    effect_of loop 0 (record { op = "ret"; pred = "p1"; args = [] })
    ≡ record { defs = []; uses = []; succ = [] }
unfolding effect_of
ret_under_predicate = refl

max_live_regs_sound_example :
    (best : ℕ) × (max_live_regs nothing_beyond loop ≡ some best)
    × ((i : ℕ) (row : String → Bool)
        → i < 6
        → ((r : String) → row r ≡ true → IsLiveOut (effects_from loop 0 loop.body) r i)
        → weigh loop (registers (effects_from loop 0 loop.body)) row ≤ best)
max_live_regs_sound_example =
    max_live_regs_sound nothing_beyond loop (omega arith) refl loop_labels loop_few
