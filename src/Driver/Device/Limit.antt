-- ===== src/Driver/Device/Limit.antt =====
-- The search under a limit is the search of the occupancy calculator, begun at the limit.
use rouge_v.Base.{ℕ, zero, suc, ◌*◌, ◌≤◌, ◌≡◌, refl, arith, Option, leb, if◌then◌else◌}
use rouge_v.Occupancy.{KernelStats, Best, potential_loop, try_size}
use rouge_v.Driver.Device.{limited_try, limited_loop}

limited_try-try_size :
    (st : KernelStats) (callback : Option (ℕ → ℕ)) (fixed size : ℕ) (best : Best)
    → size ≤ 1024
    → try_size st callback fixed size best ≡ limited_try st callback fixed size best
unfolding limited_try try_size
limited_try-try_size st callback fixed size best small =
    let e : (if leb size 1024 then size else 1024) ≡ size = ground arith in rw e refl

-- For a limit of at most 1024 threads the two searches give the same launch.
pub limited_loop-potential_loop :
    (st : KernelStats) (callback : Option (ℕ → ℕ)) (fixed warps : ℕ) (best : Best)
    → warps ≤ 32
    → limited_loop st callback fixed warps best ≡ potential_loop st callback fixed warps best
unfolding limited_loop potential_loop
limited_loop-potential_loop st callback fixed zero best small = refl
limited_loop-potential_loop st callback fixed (suc warps) best small =
    let same = limited_try-try_size st callback fixed (32 * suc warps) best (omega arith) in
    let best' = limited_try st callback fixed (32 * suc warps) best in
    let rest = limited_loop-potential_loop st callback fixed warps best' (omega arith) in
    rw (same, rest) refl
