-- ===== src/Ptx/Execute.antt =====
-- software/rouge-ptx/ptx.cpp: `execute_kernel`, the scheduler that steps the threads of a block
-- in rounds, one instruction each, with the block barrier, and the order of blocks and threads.
-- `Block` is all that one instruction reads and writes (the register states of the block and the
-- memories), and `step` is `run_thread_step` on the thread of an index; the theorems hold for
-- every such function.
pub mod Rounds
pub mod Barrier
pub mod Order
pub mod Launch
mod Examples
use rouge_v.Base.{
  ℕ, zero, suc, ◌+◌, ◌*◌, ◌%◌, ◌^◌, ◌≤◌, ◌<◌, ◌≡◌, Bool, true, false, not, ◌&&◌, ◌||◌, List, [],
  ◌∷◌, ◌++◌, map, Option, none, some, ltb, if◌then◌else◌,
}

-- The results 1, 2 and 3 of `run_thread_step`; its 0 is `none`.
pub data Outcome : Type 0 where
  advanced parked finished : Outcome

-- The entries of `alive` and `blocked` for one thread.
pub record Thread : Type 0 where
  pub alive : Bool
  pub blocked : Bool

pub data Failure : Type 0 where
  bad_index dynamic_shared step_limit step_error : Failure

abbrev pub max_steps : ℕ
max_steps = 100_000_000

-- The flags after a step.
pub settle : Thread → Outcome → Thread
settle t advanced = t
settle t parked = record t { blocked = true }
settle t finished = record t { alive = false }

-- `blocked[i]` or not `alive[i]`: the round passes over the thread.
abbrev pub is_runnable : Thread → Bool
is_runnable t = t.alive && not t.blocked

abbrev pub any_runnable : List Thread → Bool
any_runnable [] = false
any_runnable (t ∷ ts) = is_runnable t || any_runnable ts

abbrev pub any_alive : List Thread → Bool
any_alive [] = false
any_alive (t ∷ ts) = t.alive || any_alive ts

-- What one round leaves: whether a thread ran, the flags, the steps made so far, the block.
pub data Pass (Block : Type 0) : Type 0 where
  fault : Failure → Pass Block
  pass : Bool → List Thread → ℕ → Block → Pass Block

-- The result of a block: a failure, or the flags, the steps and the block at the end.
pub data BlockResult (Block : Type 0) : Type 0 where
  failed : Failure → BlockResult Block
  completed : List Thread → ℕ → Block → BlockResult Block
  out_of_fuel : BlockResult Block

-- The round goes on behind a thread.
abbrev pub keep_thread : {Block : Type 0} → Bool → Thread → Pass Block → Pass Block
keep_thread ran t (fault e) = fault e
keep_thread ran t (pass any ts steps b) = pass (ran || any) (t ∷ ts) steps b

-- `if (allBlocked) for (...) blocked[i] = false;`
abbrev pub unblock : Thread → Thread
unblock t = record t { blocked = false }

pub release : List Thread → List Thread
release ts = if any_runnable ts then ts else map unblock ts

-- A thread or block index, `tid` or `ctaid`.
pub record Dim3 : Type 0 where
  pub x : ℕ
  pub y : ℕ
  pub z : ℕ

-- The triple loop, `x` innermost: the rounds left come before the index that they start from.
pub row : ℕ → ℕ → ℕ → ℕ → List Dim3
row z y zero x = []
row z y (suc left) x = record { x = x; y = y; z = z } ∷ row z y left (x + 1)

pub plane : ℕ → ℕ → ℕ → ℕ → List Dim3
plane bx z zero y = []
plane bx z (suc left) y = row z y bx 0 ++ plane bx z left (y + 1)

pub space : ℕ → ℕ → ℕ → ℕ → List Dim3
space bx by zero z = []
space bx by (suc left) z = plane bx z by 0 ++ space bx by left (z + 1)

-- The order of the threads of a block in `states`, and of the blocks of a grid.
pub indices : Dim3 → List Dim3
indices extent = space extent.x extent.y extent.z 0

-- `linear` of the warp operations: the place in `states` where they look a thread up.
pub linear : Dim3 → Dim3 → ℕ
linear extent tid =
    (tid.x + tid.y * extent.x % 2 ^ 32 + tid.z * extent.x % 2 ^ 32 * extent.y % 2 ^ 32) % 2 ^ 32

-- `alive(n, true)` and `blocked(n, false)`.
pub fresh_threads : ℕ → List Thread
fresh_threads zero = []
fresh_threads (suc n) = record { alive = true; blocked = false } ∷ fresh_threads n

module _ {Block : Type 0} (step : ℕ → Block → Option (Outcome × Block)) (cap : ℕ) where
  -- The `for` loop over the threads from index `i` on.
  pub run_pass : ℕ → List Thread → ℕ → Block → Pass Block
  run_pass i [] steps b = pass false [] steps b
  run_pass i (t ∷ ts) steps b =
      if not t.alive || t.blocked
      then (let rest = run_pass (i + 1) ts steps b in keep_thread false t rest)
      else if ltb cap (steps + 1)
      then fault step_limit
      else elim (step i b) [
        | none ↦ fault step_error
        | some (rc, b') ↦ keep_thread true (settle t rc) (run_pass (i + 1) ts (steps + 1) b')
      ]

  -- `while (true)`, a round for each unit of fuel.
  pub run_rounds : ℕ → List Thread → ℕ → Block → BlockResult Block
  run_rounds zero ts steps b = out_of_fuel
  run_rounds (suc fuel) ts steps b = elim (run_pass 0 ts steps b) [
    | fault e ↦ failed e
    | pass false ts' steps' b' ↦ completed ts' steps' b'
    | pass true ts' steps' b' ↦ run_rounds fuel (release ts') steps' b'
  ]

  -- The scheduler on one block, with a round for each step that the cap allows and one more.
  pub run_block : ℕ → Block → BlockResult Block
  run_block threads b = run_rounds (suc cap) (fresh_threads threads) 0 b
