-- ===== src/Occupancy/Liveness/Rounds.antt =====
-- The rounds of the analysis come to rest: each one that changes a bit sets one that was clear.
use native.Mathlib.Nat.{le_trans}
use Prim.Native.String.{String}
use rouge_v.Base.{
  ℕ, zero, suc, ◌+◌, ◌*◌, ◌≤◌, ◌<◌, ◌≡◌, Bool, true, false, ◌||◌, List, [], ◌∷◌, if◌then◌else◌,
  length, arith, refl, Bool-cases, inl, inr, ◌==◌,
}
use native.Mathlib.Decide.{dec_lt}
use rouge_v.Occupancy.Liveness.{
  Effect, Live, Bits, out_row, in_row, flow, grows, sweep, iterate, set_row,
}

abbrev count : List String → (String → Bool) → ℕ
count [] row = 0
count (r ∷ rs) row = (if row r then 1 else 0) + count rs row

abbrev total : (ℕ → ℕ) → ℕ → ℕ
total f zero = 0
total f (suc n) = total f n + f n

-- The bits set in the first `n` places.
abbrev size : List String → ℕ → Live → ℕ
size regs n l = total (λ j. count regs (l.live_in j) + count regs (l.live_out j)) n

abbrev RowLe : (String → Bool) → (String → Bool) → Type 0
RowLe old new = (r : String) → old r ≡ true → new r ≡ true

count_bound : (regs : List String) (row : String → Bool) → count regs row ≤ length regs
count_bound [] row = omega arith
count_bound (r ∷ rs) row = ground (arith, count_bound rs row)

count_mono :
    (regs : List String) (old new : String → Bool) → RowLe old new → count regs old ≤ count regs new
count_mono [] old new more = omega arith
count_mono (r ∷ rs) old new more = ground (arith, more r, count_mono rs old new more)

count_grows :
    (regs : List String) (old new : String → Bool)
    → RowLe old new
    → grows regs old new ≡ true
    → count regs old < count regs new
count_grows [] old new more g = absurd (cc)
count_grows (r ∷ rs) old new more g =
    ground (arith, more r, count_mono rs old new more, count_grows rs old new more)

total_mono : (f g : ℕ → ℕ) (n : ℕ) → ((j : ℕ) → f j ≤ g j) → total f n ≤ total g n
total_mono f g zero le = omega arith
total_mono f g (suc n) le = omega (arith, le n, total_mono f g n le)

total_strict :
    (f g : ℕ → ℕ) (n i : ℕ) → ((j : ℕ) → f j ≤ g j) → i < n → f i < g i → total f n < total g n
total_strict f g zero i le h more = absurd (omega arith)
total_strict f g (suc n) i le h more = elim (dec_lt i n) [
  | yes before ↦ omega (arith, le n, total_strict f g n i le before more)
  | no last ↦
      let e : i ≡ n = omega arith in
      let here = rw e at more in omega (arith, here, total_mono f g n le)
]

total_bound : (f : ℕ → ℕ) (n b : ℕ) → ((j : ℕ) → f j ≤ b) → total f n ≤ n * b
total_bound f zero b le = omega arith
total_bound f (suc n) b le = grind (arith, le n, total_bound f n b le)

size_bound : (regs : List String) (n : ℕ) (l : Live) → size regs n l ≤ n * (2 * length regs)
size_bound regs n l =
    total_bound (λ j. count regs (l.live_in j) + count regs (l.live_out j)) n (2 * length regs)
      (λ j. omega (arith, count_bound regs (l.live_in j), count_bound regs (l.live_out j)))

record LiveLe (l l' : Live) : Type 0 where
  more_in : (j : ℕ) → RowLe (l.live_in j) (l'.live_in j)
  more_out : (j : ℕ) → RowLe (l.live_out j) (l'.live_out j)

flow-LiveLe : (e : Effect) (i : ℕ) (l : Live) → LiveLe l (flow e i l)
flow-LiveLe e i l = record { more_in = λ j r h. in_more j r h; more_out = λ j r h. out_more j r h }
  where
    in_more : (j : ℕ) (r : String) → l.live_in j r ≡ true → (flow e i l).live_in j r ≡ true
    in_more j r h = elim (Bool-cases (j == i)) [
      | inl here ↦ let same : j ≡ i = ground arith in let h' = rw same at h in ground (arith, h')
      | inr other ↦ rw other h
    ]

    out_more : (j : ℕ) (r : String) → l.live_out j r ≡ true → (flow e i l).live_out j r ≡ true
    out_more j r h = elim (Bool-cases (j == i)) [
      | inl here ↦ let same : j ≡ i = ground arith in let h' = rw same at h in ground (arith, h')
      | inr other ↦ rw other h
    ]

size_mono :
    (regs : List String) (n : ℕ) (l l' : Live) → LiveLe l l' → size regs n l ≤ size regs n l'
size_mono regs n l l' le = total_mono _ _ n (λ j. omega (
  arith,
  count_mono regs (l.live_in j) (l'.live_in j) (le.more_in j),
  count_mono regs (l.live_out j) (l'.live_out j) (le.more_out j),
))

count-set_row :
    (regs : List String) (bits : Bits) (i : ℕ) (row : String → Bool)
    → count regs (set_row bits i row i) ≡ count regs row
count-set_row [] bits i row = refl
count-set_row (r ∷ rs) bits i row = ground (arith, count-set_row rs bits i row)

flow-grows :
    (regs : List String) (n : ℕ) (e : Effect) (i : ℕ) (l : Live)
    → i < n
    → (grows regs (l.live_out i) (out_row e l i) || grows regs (l.live_in i) (in_row e l i)) ≡ true
    → size regs n l < size regs n (flow e i l)
flow-grows regs n e i l before g =
    let le = flow-LiveLe e i l in
    let out_le = count_mono regs (l.live_out i) (out_row e l i) (λ r h. ground arith) in
    let in_le = count_mono regs (l.live_in i) (in_row e l i) (λ r h. ground arith) in
    let out_lt = count_grows regs (l.live_out i) (out_row e l i) (λ r h. ground arith) in
    let in_lt = count_grows regs (l.live_in i) (in_row e l i) (λ r h. ground arith) in
    let more : count regs (l.live_in i) + count regs (l.live_out i)
        < count regs (in_row e l i) + count regs (out_row e l i) =
      ground (arith, out_le, in_le, out_lt, in_lt) in
    let in_eq = count-set_row regs l.live_in i (in_row e l i) in
    let out_eq = count-set_row regs l.live_out i (out_row e l i) in
    total_strict _ _ n i
      (λ j. omega (
        arith,
        count_mono regs (l.live_in j) ((flow e i l).live_in j) (le.more_in j),
        count_mono regs (l.live_out j) ((flow e i l).live_out j) (le.more_out j),
      ))
      before (omega (arith, more, in_eq, out_eq))

-- A sweep sets no bit back, and one that reports a change sets a new one.
sweep_grows :
    (regs : List String) (n i : ℕ) (es : List Effect) (l : Live)
    → i + length es ≤ n
    → (size regs n l ≤ size regs n (sweep regs i es l).0)
      × ((sweep regs i es l).1 ≡ true → size regs n l < size regs n (sweep regs i es l).0)
unfolding sweep
sweep_grows regs n i [] l room = (omega arith, λ h. absurd (cc))
sweep_grows regs n i (e ∷ es) l room =
    let s = sweep regs (i + 1) es l in
    let later = sweep_grows regs n (i + 1) es l (omega arith) in
    let le = size_mono regs n s.0 (flow e i s.0) (flow-LiveLe e i s.0) in
    let lt = flow-grows regs n e i s.0 (omega arith) in
    (le_trans later.0 le, λ h. ground (arith, later, le, lt))

-- With a round for each bit and one more, the rounds end with one that changed nothing.
pub iterate_rests :
    (regs : List String) (es : List Effect) (rounds : ℕ) (l : Live)
    → length es * (2 * length regs) < size regs (length es) l + rounds
    → (iterate regs es rounds l).1 ≡ false
unfolding iterate
iterate_rests regs es zero l room = let most = size_bound regs (length es) l in absurd (omega arith)
iterate_rests regs es (suc rounds) l room =
    let s = sweep regs 0 es l in
    let more = (sweep_grows regs (length es) 0 es l (omega arith)).1 in
    elim (Bool-cases s.1) [
      | inl changed ↦
          let step = more changed in rw changed (iterate_rests regs es rounds s.0 (omega arith))
      | inr same ↦ rw same refl
    ]
