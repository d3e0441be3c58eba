-- ===== src/Ptx/Execute/Barrier.antt =====
-- The block barrier: no live thread is ever more than one barrier ahead of another.
use rouge_v.Base.{
  ℕ, zero, suc, ◌+◌, ◌≤◌, ◌<◌, ◌≡◌, Bool, true, false, not, ◌||◌, List, [], ◌∷◌, map, Option, none,
  some, ltb, ◌==◌, if◌then◌else◌, arith, refl, ◌⊎◌, inl, inr, Bool-cases,
}
use rouge_v.Ptx.Execute.{
  Outcome, advanced, parked, finished, Thread, step_error, settle, is_runnable, any_runnable, Pass,
  fault, pass, keep_thread, unblock, release, run_pass, fresh_threads,
}

-- One arrival at a barrier, for a result of the step.
abbrev pub arrival : Outcome → ℕ
arrival parked = 1
arrival advanced = 0
arrival finished = 0

-- A live thread from index `i` on has arrived at `g` barriers, and at one more while it is parked.
abbrev pub InStep : (ℕ → ℕ) → ℕ → ℕ → List Thread → Type 0
InStep arrived g i [] = Unit {0}
InStep arrived g i (t ∷ ts) =
    (t.alive ≡ false ⊎ (arrived i ≡ (if t.blocked then g + 1 else g))) × InStep arrived g (i + 1) ts

InStep-ext :
    (a a' : ℕ → ℕ) (g i : ℕ) (ts : List Thread)
    → ((j : ℕ) → i ≤ j → a' j ≡ a j)
    → InStep a g i ts
    → InStep a' g i ts
InStep-ext a a' g i [] same s = tt
InStep-ext a a' g i (t ∷ ts) same s = (
  ground (arith, same i (omega arith)),
  InStep-ext a a' g (i + 1) ts (λ j h. same j (omega arith)) s.1,
)

release-all :
    (a : ℕ → ℕ) (g i : ℕ) (ts : List Thread)
    → any_runnable ts ≡ false
    → InStep a g i ts
    → InStep a (g + 1) i (map unblock ts)
release-all a g i [] none_runs s = tt
release-all a g i (t ∷ ts) none_runs s =
    (ground arith, release-all a g (i + 1) ts (ground arith) s.1)

-- The threads as the loop finds them after some rounds of a block of `n` threads that starts as
-- `b₀`, each round one that ran a thread.
pub data Reach {Block : Type 0} (step : ℕ → Block → Option (Outcome × Block)) (cap n : ℕ)
    (b₀ : Block) : List Thread → ℕ → Block → Type 0 where
  at_start : Reach step cap n b₀ (fresh_threads n) 0 b₀
  after_round :
      {ts ts' : List Thread} {steps steps' : ℕ} {b b' : Block}
      → Reach step cap n b₀ ts steps b
      → run_pass step cap 0 ts steps b ≡ pass true ts' steps' b'
      → Reach step cap n b₀ (release ts') steps' b'

fresh-InStep : (a : ℕ → ℕ) (i n : ℕ) → ((j : ℕ) → a j ≡ 0) → InStep a 0 i (fresh_threads n)
unfolding fresh_threads
fresh-InStep a i zero h = tt
fresh-InStep a i (suc n) h = (inr (h i), fresh-InStep a (i + 1) n h)

release-InStep :
    (a : ℕ → ℕ) (g : ℕ) (ts : List Thread) → InStep a g 0 ts → (g' : ℕ) × InStep a g' 0 (release ts)
unfolding release
release-InStep a g ts s = elim (Bool-cases (any_runnable ts)) [
  | inl some_run ↦ (g, rw some_run s)
  | inr none_run ↦ (g + 1, rw none_run (release-all a g 0 ts none_run s))
]

module _ {Block : Type 0} (step : ℕ → Block → Option (Outcome × Block)) (cap : ℕ)
    (arrived : Block → ℕ → ℕ)
    (counts : (i j : ℕ) (b b' : Block) (rc : Outcome)
      → step i b ≡ some (rc, b')
      → arrived b' j ≡ arrived b j + (if i == j then arrival rc else 0)) where
  abbrev PassInStep : ℕ → ℕ → Block → Pass Block → Type 0
  PassInStep g i b (fault e) = Unit {0}
  PassInStep g i b (pass any ts' steps' b') =
      ((j : ℕ) → j < i → arrived b' j ≡ arrived b j) × InStep (arrived b') g i ts'

  keep-InStep :
      (g i : ℕ) (ran : Bool) (t : Thread) (b b' : Block) (p : Pass Block)
      → ((j : ℕ) → j < i → arrived b' j ≡ arrived b j)
      → (t.alive ≡ false) ⊎ (arrived b' i ≡ (if t.blocked then g + 1 else g))
      → PassInStep g (i + 1) b' p
      → PassInStep g i b (keep_thread ran t p)
  keep-InStep g i ran t b b' (fault e) before here rest = tt
  keep-InStep g i ran t b b' (pass any ts' steps' b'') before here rest = (
    λ j h. ground (arith, rest.0 j (omega arith), before j h),
    (ground (arith, rest.0 i (omega arith)), rest.1),
  )

  step-InStep :
      (g i : ℕ) (t : Thread) (ts : List Thread) (steps : ℕ) (b : Block)
      (o : Option (Outcome × Block))
      → step i b ≡ o
      → is_runnable t ≡ true
      → InStep (arrived b) g i (t ∷ ts)
      → ((b' : Block)
          → InStep (arrived b') g (i + 1) ts
          → PassInStep g (i + 1) b' (run_pass step cap (i + 1) ts (steps + 1) b'))
      → PassInStep g i b (elim o [
        | none ↦ fault step_error
        | some (rc, b') ↦
            keep_thread true (settle t rc) (run_pass step cap (i + 1) ts (steps + 1) b')
      ])
  unfolding settle
  step-InStep g i t ts steps b none e live s next = tt
  step-InStep g i t ts steps b (some (rc, b')) e live s next =
      let same = λ (j : ℕ). counts i j b b' rc e in
      keep-InStep g i true (settle t rc) b b' _ (λ j h. ground (arith, same j))
        (settled rc (same i))
        (next b'
          (InStep-ext (arrived b) (arrived b') g (i + 1) ts (λ j h. ground (arith, same j)) s.1))
    where
      settled :
          (rc : Outcome)
          → arrived b' i ≡ arrived b i + (if i == i then arrival rc else 0)
          → ((settle t rc).alive ≡ false)
            ⊎ (arrived b' i ≡ (if (settle t rc).blocked then g + 1 else g))
      settled advanced e' = ground (arith, s.0)
      settled parked e' = ground (arith, s.0)
      settled finished e' = ground (arith, s.0)

  run_pass-InStep :
      (g i : ℕ) (ts : List Thread) (steps : ℕ) (b : Block)
      → InStep (arrived b) g i ts
      → PassInStep g i b (run_pass step cap i ts steps b)
  unfolding run_pass
  run_pass-InStep g i [] steps b s = (λ j h. refl, tt)
  run_pass-InStep g i (t ∷ ts) steps b s =
      let rest = run_pass-InStep g (i + 1) ts steps b s.1 in
      let next = run_pass-InStep g (i + 1) ts (steps + 1) in
      elim (Bool-cases (not t.alive || t.blocked)) [
        | inl idle ↦ rw idle (keep-InStep g i false t b b _ (λ j h. refl) s.0 rest)
        | inr live ↦ rw live (elim (Bool-cases (ltb cap (steps + 1))) [
          | inl over ↦ rw over tt
          | inr room ↦ rw room (step-InStep g i t ts steps b (step i b) refl (ground arith) s next)
        ])
      ]

  -- `arrived b j` counts the results 2 of the steps of thread `j`. In every round of a block, all
  -- live threads have arrived at the same number of barriers, and those that are parked at one
  -- more: none runs on before the others have come.
  pub Reach-InStep :
      (n : ℕ) (b₀ : Block)
      → ((j : ℕ) → arrived b₀ j ≡ 0)
      → {ts : List Thread} {steps : ℕ} {b : Block} → Reach step cap n b₀ ts steps b
      → (g : ℕ) × InStep (arrived b) g 0 ts
  Reach-InStep n b₀ zeros at_start = (0, fresh-InStep (arrived b₀) 0 n zeros)
  Reach-InStep n b₀ zeros (after_round {ts} {ts'} {steps} {steps'} {b} {b'} r e) =
      let (g, s) = Reach-InStep n b₀ zeros r in
      let s' : InStep (arrived b') g 0 ts' = (rw e at (run_pass-InStep g 0 ts steps b s)).1 in
      release-InStep (arrived b') g ts' s'
