-- ===== src/Ptx/Execute/Examples.antt =====
-- The scheduler on a block of two threads that meet at one barrier and end.
use rouge_v.Base.{
  ℕ, ◌+◌, ◌≡◌, true, false, [], ◌∷◌, Option, some, ◌==◌, if◌then◌else◌, refl, arith, get_elem?,
}
use rouge_v.Ptx.Execute.{
  Outcome, parked, finished, completed, pass, run_pass, run_rounds, run_block, settle, release,
  fresh_threads, Dim3, indices, linear,
}
use rouge_v.Ptx.Execute.Rounds.{AllFinished, run_block-AllFinished}
use rouge_v.Ptx.Execute.Barrier.{InStep, at_start, after_round, arrival, Reach-InStep}
use rouge_v.Base.Int.{pos}
use rouge_v.Ptx.Execute.Launch.{Function, execute_kernel, LaunchSound, execute_kernel-LaunchSound}
use rouge_v.Ptx.Execute.Order.{get_elem?-linear}

-- The arrivals of each thread at the barrier.
abbrev Arrivals : Type 0
Arrivals = ℕ → ℕ

abbrev arrive : ℕ → Arrivals → Arrivals
arrive i b j = b j + (if i == j then 1 else 0)

abbrev barrier_step : ℕ → Arrivals → Option (Outcome × Arrivals)
barrier_step i b = if b i == 0 then some (parked, arrive i b) else some (finished, b)

abbrev nobody : Arrivals
nobody j = 0

barrier_step_counts :
    (i j : ℕ) (b b' : Arrivals) (rc : Outcome)
    → barrier_step i b ≡ some (rc, b')
    → b' j ≡ b j + (if i == j then arrival rc else 0)
barrier_step_counts i j b b' rc e = ground arith

both_end :
    run_block barrier_step 10 2 nobody
    ≡ completed
        (record { alive = false; blocked = false } ∷ record { alive = false; blocked = false } ∷ [])
        4
        (arrive 1 (arrive 0 nobody))
unfolding run_block run_rounds run_pass settle release fresh_threads
both_end = refl

first_round :
    run_pass barrier_step 10 0 (fresh_threads 2) 0 nobody
    ≡ pass true
        (record { alive = true; blocked = true } ∷ record { alive = true; blocked = true } ∷ [])
        2
        (arrive 1 (arrive 0 nobody))
unfolding run_pass settle fresh_threads
first_round = refl

run_block-AllFinished_example : AllFinished barrier_step 10 (run_block barrier_step 10 2 nobody)
run_block-AllFinished_example = run_block-AllFinished barrier_step 10 2 nobody

Reach-InStep_example :
    (g : ℕ) × InStep (arrive 1 (arrive 0 nobody)) g 0 (
      release
        (record { alive = true; blocked = true } ∷ record { alive = true; blocked = true } ∷ []))
Reach-InStep_example =
    Reach-InStep barrier_step 10 (λ b j. b j) barrier_step_counts 2 nobody (λ j. refl)
      (after_round at_start first_round)

abbrev extent : Dim3
extent = record { x = 4; y = 3; z = 2 }

abbrev corner : Dim3
corner = record { x = 3; y = 2; z = 1 }

get_elem?-linear_example : get_elem? (indices extent) (linear extent corner) ≡ some corner
get_elem?-linear_example =
    get_elem?-linear extent corner (omega arith) (omega arith) (omega arith) (omega arith)

abbrev open_nobody : Dim3 → ℕ → Arrivals
open_nobody at m = nobody

abbrev plain : Function
plain = record { shared_vars = false ∷ [] }

execute_kernel-LaunchSound_example :
    LaunchSound barrier_step open_nobody
      (λ b. b 0)
      (plain ∷ [])
      (pos 0)
      extent
      extent
      7
      (execute_kernel barrier_step open_nobody (λ b. b 0) (plain ∷ []) (pos 0) extent extent 7)
execute_kernel-LaunchSound_example =
    execute_kernel-LaunchSound barrier_step open_nobody (λ b. b 0) (plain ∷ []) (pos 0) extent
      extent 7
