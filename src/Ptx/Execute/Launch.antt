-- ===== src/Ptx/Execute/Launch.antt =====
-- software/rouge-ptx/ptx.cpp: `execute_kernel` on a grid. A function of the program is what it
-- reads of it: whether a `.shared` variable is dynamic. `Memory` is what a block leaves to the
-- next one, and `open_block` the fresh states and the zeroed scratchpad of the block of an index.
use rouge_v.Base.{
  ◌%◌, ◌^◌, ℕ, ◌*◌, ◌≤◌, ◌≡◌, Bool, false, ◌||◌, List, [], ◌∷◌, Option, none, some, if◌then◌else◌,
  refl, get_elem?, Bool-cases, inl, inr,
}
use rouge_v.Base.Int.{ℤ, pos, negsuc}
use rouge_v.Ptx.Execute.{
  Outcome, Thread, Failure, bad_index, dynamic_shared, BlockResult, failed, completed, out_of_fuel,
  Dim3, indices, run_block, any_alive, max_steps,
}
use rouge_v.Ptx.Execute.Rounds.{AllFinished, run_block-AllFinished}

-- `execute_kernel` returns false with an error, or true and leaves a memory.
pub data Launched (Memory : Type 0) : Type 0 where
  refused : Failure → Launched Memory
  launched : Memory → Launched Memory
  unfinished : Launched Memory

-- `PtxFunction` with its `.shared` variables, each by its `dynamic` flag.
pub record Function : Type 0 where
  pub shared_vars : List Bool

-- Some `sv.dynamic` of the function.
abbrev pub has_dynamic : List Bool → Bool
has_dynamic [] = false
has_dynamic (v ∷ vs) = v || has_dynamic vs

-- `prog.functions[fnIndex]`, where the index is in range.
abbrev pub function_at : List Function → ℤ → Option Function
function_at functions (pos index) = get_elem? functions index
function_at functions (negsuc index) = none

-- `threadsPerBlock`, a product of `size_t`.
abbrev pub threads_per_block : Dim3 → ℕ
threads_per_block block = block.z * block.y * block.x % 2 ^ 64

module _ {Memory Block : Type 0} (step : ℕ → Block → Option (Outcome × Block))
    (open_block : Dim3 → Memory → Block) (leave : Block → Memory) where
  -- The blocks of the grid, one after the other.
  pub run_blocks : ℕ → List Dim3 → Memory → Launched Memory
  run_blocks threads [] m = launched m
  run_blocks threads (at ∷ rest) m = elim (run_block step max_steps threads (open_block at m)) [
    | failed e ↦ refused e
    | completed ts steps b ↦ run_blocks threads rest (leave b)
    | out_of_fuel ↦ unfinished
  ]

  pub execute_kernel : List Function → ℤ → Dim3 → Dim3 → Memory → Launched Memory
  execute_kernel functions index grid block m = elim (function_at functions index) [
    | none ↦ refused bad_index
    | some fn ↦
        if has_dynamic fn.shared_vars
        then refused dynamic_shared
        else run_blocks (threads_per_block block) (indices grid) m
  ]

  -- The blocks of a list ran one after the other, each till all its threads had finished.
  pub data Ran (threads : ℕ) : List Dim3 → Memory → Memory → Type 0 where
    none_left : {m : Memory} → Ran threads [] m m
    block_ran :
        {at : Dim3} {rest : List Dim3} {m m' : Memory} {ts : List Thread} {steps : ℕ} {b : Block}
        → run_block step max_steps threads (open_block at m) ≡ completed ts steps b
        → any_alive ts ≡ false
        → steps ≤ max_steps
        → Ran threads rest (leave b) m'
        → Ran threads (at ∷ rest) m m'

  abbrev pub BlocksRan : ℕ → List Dim3 → Memory → Launched Memory → Type 0
  BlocksRan threads blocks m (refused e) = Unit {0}
  BlocksRan threads blocks m (launched m') = Ran threads blocks m m'
  BlocksRan threads blocks m unfinished = ⊥

  run_blocks-BlocksRan :
      (threads : ℕ) (blocks : List Dim3) (m : Memory)
      → BlocksRan threads blocks m (run_blocks threads blocks m)
  unfolding run_blocks
  run_blocks-BlocksRan threads [] m = none_left
  run_blocks-BlocksRan threads (at ∷ rest) m =
      go (run_block step max_steps threads (open_block at m)) refl
        (run_block-AllFinished step max_steps threads (open_block at m))
        (run_blocks-BlocksRan threads rest)
    where
      after :
          (b : Block)
          → ((m' : Memory) → Ran threads rest (leave b) m' → Ran threads (at ∷ rest) m m')
          → (r : Launched Memory) → BlocksRan threads rest (leave b) r
          → BlocksRan threads (at ∷ rest) m r
      after b put (refused e) ran = tt
      after b put (launched m') ran = put m' ran
      after b put unfinished ran = ran

      go :
          (r : BlockResult Block)
          → run_block step max_steps threads (open_block at m) ≡ r
          → AllFinished step max_steps r
          → ((m' : Memory) → BlocksRan threads rest m' (run_blocks threads rest m'))
          → BlocksRan threads (at ∷ rest) m (elim r [
            | failed e ↦ refused e
            | completed ts steps b ↦ run_blocks threads rest (leave b)
            | out_of_fuel ↦ unfinished
          ])
      go (failed e) same ends others = tt
      go (completed ts steps b) same ends others =
          after b (λ m' ran. block_ran same ends.0 ends.1 ran) (run_blocks threads rest (leave b))
            (others (leave b))
      go out_of_fuel same ends others = ends

  -- What a launch of the function at an index may come to.
  abbrev pub LaunchSound : List Function → ℤ → Dim3 → Dim3 → Memory → Launched Memory → Type 0
  LaunchSound functions index grid block m (refused e) = Unit {0}
  LaunchSound functions index grid block m (launched m') =
      ((fn : Function) × (function_at functions index ≡ some fn)
        × (has_dynamic fn.shared_vars ≡ false))
      × Ran (threads_per_block block) (indices grid) m m'
  LaunchSound functions index grid block m unfinished = ⊥

  -- A launch always ends: with an error, or the function exists and has no dynamic `.shared`
  -- variable and every block of the grid ran in the order of `indices`, on the memory that the one
  -- before left, until all of its threads had finished.
  pub execute_kernel-LaunchSound :
      (functions : List Function) (index : ℤ) (grid block : Dim3) (m : Memory)
      → LaunchSound functions index grid block m (execute_kernel functions index grid block m)
  unfolding execute_kernel
  execute_kernel-LaunchSound functions index grid block m = found (function_at functions index) refl
    where
      ran :
          (fn : Function)
          → function_at functions index ≡ some fn
          → has_dynamic fn.shared_vars ≡ false
          → (r : Launched Memory) → BlocksRan (threads_per_block block) (indices grid) m r
          → LaunchSound functions index grid block m r
      ran fn e static (refused err) b = tt
      ran fn e static (launched m') b = ((fn, e, static), b)
      ran fn e static unfinished b = b

      found :
          (o : Option Function)
          → function_at functions index ≡ o
          → LaunchSound functions index grid block m (elim o [
            | none ↦ refused bad_index
            | some fn ↦
                if has_dynamic fn.shared_vars
                then refused dynamic_shared
                else run_blocks (threads_per_block block) (indices grid) m
          ])
      found none e = tt
      found (some fn) e = elim (Bool-cases (has_dynamic fn.shared_vars)) [
        | inl dynamic ↦ rw dynamic tt
        | inr static ↦ rw static (
            ran fn e static (run_blocks (threads_per_block block) (indices grid) m)
              (run_blocks-BlocksRan (threads_per_block block) (indices grid) m))
      ]
