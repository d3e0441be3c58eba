-- ===== src/Ptx/Execute/Order.antt =====
-- Where a thread stands in the list of the thread states.
use native.Mathlib.Nat.{mul_assoc, mul_comm}
use rouge_v.Base.{
  ℕ, zero, suc, ◌+◌, ◌*◌, ◌^◌, ◌<◌, ◌≡◌, some, arith, refl, length, get_elem?, length-append,
  get_elem?-append_left, get_elem?-append_right, ◌∙◌, ap,
}
use rouge_v.Base.Arith.{mul_mono_left, mul_mono}
use rouge_v.Ptx.Execute.{Dim3, row, plane, space, indices, linear}

length-row : (z y n x : ℕ) → length (row z y n x) ≡ n
unfolding row
length-row z y zero x = refl
length-row z y (suc n) x = ap suc (length-row z y n (x + 1))

length-plane : (bx z n y : ℕ) → length (plane bx z n y) ≡ n * bx
unfolding plane
length-plane bx z zero y = omega arith
length-plane bx z (suc n) y = omega (
  arith,
  length-append (row z y bx 0) (plane bx z n (y + 1)),
  length-row z y bx 0,
  length-plane bx z n (y + 1),
)

get_elem?-row :
    (z y n x i : ℕ) → i < n → get_elem? (row z y n x) i ≡ some (record { x = x + i; y = y; z = z })
unfolding row
get_elem?-row z y zero x i h = absurd (omega arith)
get_elem?-row z y (suc n) x zero h = ground arith
get_elem?-row z y (suc n) x (suc i) h =
    let e : x + 1 + i ≡ x + suc i = omega arith in
    rw (← e) (get_elem?-row z y n (x + 1) i (omega arith))

get_elem?-plane :
    (bx z n y i j p : ℕ)
    → p ≡ i + j * bx
    → i < bx
    → j < n
    → get_elem? (plane bx z n y) p ≡ some (record { x = i; y = y + j; z = z })
unfolding plane
get_elem?-plane bx z zero y i j p e hi hj = absurd (omega arith)
get_elem?-plane bx z (suc n) y i zero p e hi hj =
    let here : p ≡ i = omega arith in
    get_elem?-append_left (row z y bx 0) (plane bx z n (y + 1)) p
      (omega (arith, length-row z y bx 0))
    ∙ ground (arith, get_elem?-row z y bx 0 p (omega arith))
get_elem?-plane bx z (suc n) y i (suc j) p e hi hj =
    get_elem?-append_right (row z y bx 0) (plane bx z n (y + 1)) (i + j * bx) p
      (omega (arith, length-row z y bx 0))
    ∙ ground (arith, get_elem?-plane bx z n (y + 1) i j (i + j * bx) refl hi (omega arith))

in_plane : (i j bx by : ℕ) → i < bx → j < by → i + j * bx < by * bx
in_plane i j bx by hi hj = omega (arith, mul_mono_left (suc j) by bx hj)

get_elem?-space :
    (bx by n z i j k p : ℕ)
    → p ≡ i + j * bx + k * (by * bx)
    → i < bx
    → j < by
    → k < n
    → get_elem? (space bx by n z) p ≡ some (record { x = i; y = j; z = z + k })
unfolding space
get_elem?-space bx by zero z i j k p e hi hj hk = absurd (omega arith)
get_elem?-space bx by (suc n) z i j zero p e hi hj hk =
    get_elem?-append_left (plane bx z by 0) (space bx by n (z + 1)) p
      (omega (arith, length-plane bx z by 0, in_plane i j bx by hi hj))
    ∙ ground (arith, get_elem?-plane bx z by 0 i j p (omega arith) hi hj)
get_elem?-space bx by (suc n) z i j (suc k) p e hi hj hk =
    get_elem?-append_right (plane bx z by 0) (space bx by n (z + 1)) (i + j * bx + k * (by * bx)) p
      (omega (arith, length-plane bx z by 0))
    ∙ ground (arith, get_elem?-space bx by n (z + 1) i j k _ refl hi hj (omega arith))

-- The thread of index `tid` stands in the states at the place that the warp operations compute
-- for it, for every block of fewer than 2 ^ 32 threads.
pub get_elem?-linear :
    (extent tid : Dim3)
    → tid.x < extent.x
    → tid.y < extent.y
    → tid.z < extent.z
    → extent.z * (extent.y * extent.x) < 2 ^ 32
    → get_elem? (indices extent) (linear extent tid) ≡ some tid
unfolding indices linear
get_elem?-linear extent tid hx hy hz small =
    let yx = in_plane tid.x tid.y extent.x extent.y hx hy in
    let zyx = in_plane (tid.x + tid.y * extent.x) tid.z (extent.y * extent.x) extent.z yx hz in
    let inner = mul_mono (tid.z * extent.x) 1 extent.y (omega arith) in
    let assoc : tid.z * extent.x * extent.y ≡ tid.z * (extent.y * extent.x) =
      mul_assoc tid.z extent.x extent.y ∙ ap (λ q. tid.z * q) (mul_comm extent.x extent.y) in
    let place : linear extent tid ≡ tid.x + tid.y * extent.x + tid.z * (extent.y * extent.x) =
      ground (arith, assoc, yx, zyx, inner) in
    let found : get_elem? (indices extent) (linear extent tid)
        ≡ some (record { x = tid.x; y = tid.y; z = 0 + tid.z }) =
      rw place (get_elem?-space extent.x extent.y extent.z 0 tid.x tid.y tid.z _ refl hx hy hz) in
    let same : 0 + tid.z ≡ tid.z = omega arith in rw same at found
