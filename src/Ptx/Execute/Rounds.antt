-- ===== src/Ptx/Execute/Rounds.antt =====
-- One round, and the loop of rounds: it ends within the cap, and only when every thread has.
use rouge_v.Base.{
  ℕ, zero, suc, ◌+◌, ◌≤◌, ◌<◌, ◌≡◌, true, false, not, ◌||◌, List, [], ◌∷◌, map, Option, none, some,
  ltb, arith, refl, inl, inr, Bool-cases, ltb_false→le,
}
use rouge_v.Ptx.Execute.{
  Outcome, Thread, step_error, settle, is_runnable, any_runnable, any_alive, Pass, fault, pass,
  BlockResult, failed, completed, out_of_fuel, keep_thread, unblock, release, run_pass, run_rounds,
  run_block, fresh_threads,
}

-- After a release a live thread can run, if any thread is alive.
any_alive-release : (ts : List Thread) → any_alive (release ts) ≡ any_runnable (release ts)
unfolding release
any_alive-release ts = elim (Bool-cases (any_runnable ts)) [
  | inl t ↦ rw t (ground (arith, runnable→alive ts))
  | inr f ↦ rw f (unblocked ts)
]
  where
    runnable→alive : (ts : List Thread) → any_runnable ts ≡ true → any_alive ts ≡ true
    runnable→alive [] h = cc
    runnable→alive (t ∷ ts) h = ground (arith, runnable→alive ts)

    unblocked : (ts : List Thread) → any_alive (map unblock ts) ≡ any_runnable (map unblock ts)
    unblocked [] = refl
    unblocked (t ∷ ts) = ground (arith, unblocked ts)

fresh-fair : (n : ℕ) → any_alive (fresh_threads n) ≡ any_runnable (fresh_threads n)
unfolding fresh_threads
fresh-fair zero = refl
fresh-fair (suc n) = refl

module _ {Block : Type 0} (step : ℕ → Block → Option (Outcome × Block)) (cap : ℕ) where
  abbrev PassGood : List Thread → ℕ → Pass Block → Type 0
  PassGood ts steps (fault e) = Unit {0}
  PassGood ts steps (pass false ts' steps' b') =
      (any_runnable ts ≡ false) × (ts' ≡ ts) × (steps' ≡ steps)
  PassGood ts steps (pass true ts' steps' b') =
      (any_runnable ts ≡ true) × (steps < steps') × (steps' ≤ cap)

  skip-good :
      (t : Thread) (ts : List Thread) (steps : ℕ) (p : Pass Block)
      → is_runnable t ≡ false
      → PassGood ts steps p
      → PassGood (t ∷ ts) steps (keep_thread false t p)
  skip-good t ts steps (fault e) idle g = tt
  skip-good t ts steps (pass false ts' steps' b') idle g = ground arith
  skip-good t ts steps (pass true ts' steps' b') idle g = ground arith

  ran-good :
      (t t' : Thread) (ts : List Thread) (steps : ℕ) (p : Pass Block)
      → is_runnable t ≡ true
      → steps + 1 ≤ cap
      → PassGood ts (steps + 1) p
      → PassGood (t ∷ ts) steps (keep_thread true t' p)
  ran-good t t' ts steps (fault e) live room g = tt
  ran-good t t' ts steps (pass false ts' steps' b') live room g = ground arith
  ran-good t t' ts steps (pass true ts' steps' b') live room g = ground arith

  stepped-good :
      (i : ℕ) (t : Thread) (ts : List Thread) (steps : ℕ) (o : Option (Outcome × Block))
      → is_runnable t ≡ true
      → steps + 1 ≤ cap
      → ((b' : Block) → PassGood ts (steps + 1) (run_pass step cap (i + 1) ts (steps + 1) b'))
      → PassGood (t ∷ ts) steps (elim o [
        | none ↦ fault step_error
        | some (rc, b') ↦
            keep_thread true (settle t rc) (run_pass step cap (i + 1) ts (steps + 1) b')
      ])
  stepped-good i t ts steps none live room g = tt
  stepped-good i t ts steps (some (rc, b')) live room g =
      ran-good t (settle t rc) ts steps _ live room (g b')

  -- A round with no thread to run changes nothing; any other makes a step and stays in the cap.
  run_pass-good :
      (i : ℕ) (ts : List Thread) (steps : ℕ) (b : Block)
      → PassGood ts steps (run_pass step cap i ts steps b)
  unfolding run_pass
  run_pass-good i [] steps b = (refl, refl, refl)
  run_pass-good i (t ∷ ts) steps b =
      let rest = run_pass-good (i + 1) ts steps b in
      let next = run_pass-good (i + 1) ts (steps + 1) in
      elim (Bool-cases (not t.alive || t.blocked)) [
        | inl idle ↦ rw idle (skip-good t ts steps _ (ground arith) rest)
        | inr live ↦ rw live (elim (Bool-cases (ltb cap (steps + 1))) [
          | inl over ↦ rw over tt
          | inr room ↦
              rw room
                (stepped-good i t ts steps (step i b) (ground arith) (ltb_false→le _ _ room) next)
        ])
      ]

  -- Every thread of the block has finished, or the block failed.
  abbrev pub AllFinished : BlockResult Block → Type 0
  AllFinished (failed e) = Unit {0}
  AllFinished (completed ts steps b) = (any_alive ts ≡ false) × (steps ≤ cap)
  AllFinished out_of_fuel = ⊥

  run_rounds-from :
      (fuel : ℕ) (ts : List Thread) (steps : ℕ) (b : Block)
      → any_alive ts ≡ any_runnable ts
      → steps ≤ cap
      → cap < fuel + steps
      → AllFinished (run_rounds step cap fuel ts steps b)
  unfolding run_rounds
  run_rounds-from zero ts steps b fair room enough = omega arith
  run_rounds-from (suc fuel) ts steps b fair room enough =
      go (run_pass step cap 0 ts steps b) (run_pass-good 0 ts steps b) (run_rounds-from fuel)
    where
      go :
          (p : Pass Block)
          → PassGood ts steps p
          → ((ts' : List Thread) (steps' : ℕ) (b' : Block)
              → any_alive ts' ≡ any_runnable ts'
              → steps' ≤ cap
              → cap < fuel + steps'
              → AllFinished (run_rounds step cap fuel ts' steps' b'))
          → AllFinished (elim p [
            | fault e ↦ failed e
            | pass false ts' steps' b' ↦ completed ts' steps' b'
            | pass true ts' steps' b' ↦ run_rounds step cap fuel (release ts') steps' b'
          ])
      go (fault e) g next = tt
      go (pass false ts' steps' b') g next = ground arith
      go (pass true ts' steps' b') g next =
          next (release ts') steps' b' (any_alive-release ts') g.2 (omega arith)

  -- The scheduler always comes to an end within the cap on steps; unless it fails, every thread
  -- has finished: no block ends with a thread parked at a barrier.
  pub run_block-AllFinished : (threads : ℕ) (b : Block) → AllFinished (run_block step cap threads b)
  unfolding run_block
  run_block-AllFinished threads b =
      run_rounds-from (suc cap) (fresh_threads threads) 0 b (fresh-fair threads) (omega arith)
        (omega arith)
