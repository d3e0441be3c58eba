-- ===== src/Occupancy/Potential.antt =====
-- `occ_potential_block_size` finds the best of all block sizes, in spite of its early exit.
use native.Mathlib.Nat.{le-div_iff_mul-le}
use native.Mathlib.Decide.{dec_lt, ℕ_discrete}
use mathlib.Core.Path.{subst}
use rouge_v.Base.{
  ℕ, zero, suc, ◌*◌, ◌/◌, ◌≤◌, ◌<◌, ◌≡◌, refl, ◌⊎◌, inl, inr, Option, arith, Bool-cases, ltb, leb,
  ◌==◌, if◌then◌else◌, ltb→lt, ltb_false→le, ==_iff, ap,
}
use rouge_v.Occupancy.{
  KernelStats, div_up, limit_warps, occ_active_blocks, Best, no_best, dynamic_smem_of, try_size,
  potential_loop, occ_potential_block_size,
}

active-le-warps :
    (st : KernelStats) (size dynamic_smem : ℕ)
    → occ_active_blocks st size dynamic_smem ≤ 32 / div_up size 32
unfolding occ_active_blocks limit_warps
active-le-warps st size dynamic_smem = ground arith

module _ (st : KernelStats) (callback : Option (ℕ → ℕ)) (fixed : ℕ) where
  -- The blocks and the threads of a block of `w` warps.
  abbrev pub active_at : ℕ → ℕ
  active_at w = occ_active_blocks st (32 * w) (dynamic_smem_of callback fixed (32 * w))

  abbrev pub threads_at : ℕ → ℕ
  threads_at w = 32 * w * active_at w

  -- `best` is the best of the sizes from `lo + 1` to 32 warps, the largest of equally good ones.
  pub record IsBest (lo : ℕ) (best : Best) : Type 0 where
    pub achieved :
        (best ≡ no_best)
        ⊎ ((w : ℕ) × (lo < w)
            × (w ≤ 32)
            × (best ≡ record { block = 32 * w; num_blocks = active_at w; threads = threads_at w }))
    pub greatest : (w : ℕ) → lo < w → w ≤ 32 → threads_at w ≤ best.threads
    pub largest :
        (w : ℕ)
        → lo < w
        → w ≤ 32
        → 0 < threads_at w
        → best.block < 32 * w
        → threads_at w < best.threads

  threads_bound : (w : ℕ) → threads_at w ≤ 1024
  threads_bound zero = omega arith
  threads_bound (suc w) =
      let size = 32 * suc w in
      let e : div_up size 32 ≡ suc w = omega arith in
      let h : active_at (suc w) * suc w ≤ 32 =
        (le-div_iff_mul-le (omega arith)).0
          (rw e at (active-le-warps st size (dynamic_smem_of callback fixed size))) in
      omega (arith, h)

  abbrev candidate : ℕ → Best
  candidate w = record { block = 32 * w; num_blocks = active_at w; threads = threads_at w }

  try_size_cases :
      (w : ℕ) (best : Best)
      → w ≤ 32
      → ((best.threads < threads_at w) × (try_size st callback fixed (32 * w) best ≡ candidate w))
        ⊎ ((threads_at w ≤ best.threads) × (try_size st callback fixed (32 * w) best ≡ best))
  unfolding try_size
  try_size_cases w best small =
      let e : (if leb (32 * w) 1024 then 32 * w else 1024) ≡ 32 * w = ground arith in
      rw e (elim (Bool-cases (ltb best.threads (threads_at w))) [
        | inl t ↦ inl (ltb→lt _ _ t, rw t)
        | inr f ↦ inr (ltb_false→le _ _ f, rw f)
      ])

  -- A fact about the sizes above `w` and at `w` is one about the sizes above `w - 1`.
  from_suc {κ} :
      (P : ℕ → Type κ) (w : ℕ)
      → P (suc w)
      → ((v : ℕ) → suc w < v → v ≤ 32 → P v)
      → (v : ℕ) → w < v
      → v ≤ 32
      → P v
  from_suc P w here above v low high = elim (ℕ_discrete (suc w) v) [
    | yes e ↦ subst P e here
    | no ne ↦ above v (omega arith) high
  ]

  take-IsBest :
      (w : ℕ) (best : Best)
      → w < 32
      → IsBest (suc w) best
      → best.threads < threads_at (suc w)
      → IsBest w (candidate (suc w))
  take-IsBest w best small b more = record {
    achieved = inr (suc w, omega arith, small, refl);
    greatest =
        from_suc (λ v. threads_at v ≤ threads_at (suc w)) w (omega arith)
          λ v low high. omega (arith, more, b.greatest v low high);
    largest =
        from_suc (λ v. 0 < threads_at v → 32 * suc w < 32 * v → threads_at v < threads_at (suc w)) w
          (λ _ lt. absurd (omega (arith, lt)))
          λ v low high _ _. omega (arith, more, b.greatest v low high);
  }

  keep-IsBest :
      (w : ℕ) (best : Best)
      → IsBest (suc w) best
      → threads_at (suc w) ≤ best.threads
      → IsBest w best
  keep-IsBest w best b less = record {
    achieved = elim b.achieved [
      | inl e ↦ inl e
      | inr (v, low, high, e) ↦ inr (v, omega arith, high, e)
    ];
    greatest = from_suc (λ v. threads_at v ≤ best.threads) w less b.greatest;
    largest =
        from_suc (λ v. 0 < threads_at v → best.block < 32 * v → threads_at v < best.threads) w
          (λ some_threads lt. elim b.achieved [
            | inl e ↦ absurd (omega (arith, ap (λ (c : Best). c.threads) e))
            | inr (v, low, high, e) ↦ absurd (omega (arith, ap (λ (c : Best). c.block) e))
          ])
          b.largest;
  }

  try_size-IsBest :
      (w : ℕ) (best : Best)
      → w < 32
      → IsBest (suc w) best
      → IsBest w (try_size st callback fixed (32 * suc w) best)
  try_size-IsBest w best small b = elim (try_size_cases (suc w) best small) [
    | inl (more, e) ↦ rw e (take-IsBest w best small b more)
    | inr (less, e) ↦ rw e (keep-IsBest w best b less)
  ]

  -- With 1024 threads no smaller size can do better: the early exit loses nothing.
  full-IsBest : (w : ℕ) (best : Best) → w ≤ 32 → IsBest w best → best.threads ≡ 1024 → IsBest 0 best
  full-IsBest w best small b full = record {
    achieved = elim b.achieved [
      | inl e ↦ inl e
      | inr (v, low, high, e) ↦ inr (v, omega arith, high, e)
    ];
    greatest = λ v _ _. omega (arith, threads_bound v, full);
    largest = λ v low high some_threads lt. elim (dec_lt w v) [
      | yes above ↦ b.largest v above high some_threads lt
      | no below ↦ elim b.achieved [
        | inl e ↦ absurd (omega (arith, ap (λ (c : Best). c.threads) e))
        | inr (u, low', high', e) ↦ absurd (omega (arith, ap (λ (c : Best). c.block) e))
      ]
    ];
  }

  potential_loop-IsBest :
      (w : ℕ) (best : Best)
      → w ≤ 32
      → IsBest w best
      → IsBest 0 (potential_loop st callback fixed w best)
  unfolding potential_loop
  potential_loop-IsBest zero best small b = b
  potential_loop-IsBest (suc w) best small b =
      let best' = try_size st callback fixed (32 * suc w) best in
      let b' = try_size-IsBest w best small b in
      elim (Bool-cases (best'.threads == 1024)) [
        | inl full ↦
            rw full (full-IsBest w best' (omega arith) b' ((==_iff best'.threads 1024).0 full))
        | inr more ↦ rw more (potential_loop-IsBest w best' (omega arith) b')
      ]

  no_best-IsBest : IsBest 32 no_best
  no_best-IsBest = record {
    achieved = inl refl;
    greatest = λ v low high. absurd (omega arith);
    largest = λ v low high. absurd (omega arith);
  }

  -- The pair returned is the best launch: no size of 1 to 32 warps has more active threads, and
  -- every larger size that has any has strictly fewer; the grid is the blocks active at that size
  -- on each multiprocessor. Both are 0 only where no size can run.
  pub occ_potential_block_size-IsBest :
      (num_sms : ℕ)
      → (best : Best) × IsBest 0 best
        × (occ_potential_block_size st callback fixed num_sms
            ≡ (best.num_blocks * num_sms, best.block))
  unfolding occ_potential_block_size
  occ_potential_block_size-IsBest num_sms = (
    potential_loop st callback fixed 32 no_best,
    potential_loop-IsBest 32 no_best (omega arith) no_best-IsBest,
    refl,
  )
