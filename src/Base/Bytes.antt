-- ===== src/Base/Bytes.antt =====
-- Memory as the byte of each address, and the copies of `memcpy`.
use Prim.Native.Nat.{ℕ, zero, suc, ◌+◌, ◌≤◌, ◌<◌}
use rouge_v.Base.Tests.{◌==◌, if◌then◌else◌}
use rouge_v.Base.Lists.{length}
use mathlib.Core.Path.{◌≡◌, refl, ◌∙◌, ap}
use mathlib.Core.Logic.{◌⊎◌}
use mathlib.Core.List.{List, [], ◌∷◌}
use native.Mathlib.Omega.{arith}

abbrev pub Memory : Type 0
Memory = ℕ → ℕ

abbrev pub put : Memory → ℕ → ℕ → Memory
put m a b q = if a == q then b else m q

unfoldable pub write_bytes : Memory → ℕ → List ℕ → Memory
write_bytes m a [] = m
write_bytes m a (b ∷ bs) = write_bytes (put m a b) (a + 1) bs

unfoldable pub read_bytes : Memory → ℕ → ℕ → List ℕ
read_bytes m a zero = []
read_bytes m a (suc n) = m a ∷ read_bytes m (a + 1) n

-- `memset(p, 0, n)`.
unfoldable pub zero_bytes : ℕ → List ℕ
zero_bytes zero = []
zero_bytes (suc n) = 0 ∷ zero_bytes n

pub length-zero_bytes : (n : ℕ) → length (zero_bytes n) ≡ n
unfolding zero_bytes
length-zero_bytes zero = refl
length-zero_bytes (suc n) = ap suc (length-zero_bytes n)

pub length-read_bytes : (m : Memory) (a n : ℕ) → length (read_bytes m a n) ≡ n
unfolding read_bytes
length-read_bytes m a zero = refl
length-read_bytes m a (suc n) = ap suc (length-read_bytes m (a + 1) n)

pub write_bytes-apart :
    (m : Memory) (a : ℕ) (bs : List ℕ) (q : ℕ)
    → (q < a) ⊎ (a + length bs ≤ q)
    → write_bytes m a bs q ≡ m q
unfolding write_bytes
write_bytes-apart m a [] q apart = refl
write_bytes-apart m a (b ∷ bs) q apart =
    write_bytes-apart (put m a b) (a + 1) bs q (ground arith) ∙ ground arith

-- Bytes outside of what was written read as before.
pub read_bytes-apart :
    (m : Memory) (a : ℕ) (bs : List ℕ) (p n : ℕ)
    → (p + n ≤ a) ⊎ (a + length bs ≤ p)
    → read_bytes (write_bytes m a bs) p n ≡ read_bytes m p n
unfolding read_bytes
read_bytes-apart m a bs p zero apart = refl
read_bytes-apart m a bs p (suc n) apart =
    let here = write_bytes-apart m a bs p (ground arith) in
    let rest = read_bytes-apart m a bs (p + 1) n (ground arith) in rw (here, rest) refl

-- What was written is read back.
pub read_bytes-write_bytes :
    (m : Memory) (a : ℕ) (bs : List ℕ) → read_bytes (write_bytes m a bs) a (length bs) ≡ bs
unfolding read_bytes write_bytes
read_bytes-write_bytes m a [] = refl
read_bytes-write_bytes m a (b ∷ bs) =
    let here : write_bytes (put m a b) (a + 1) bs a ≡ b =
      write_bytes-apart (put m a b) (a + 1) bs a (ground arith) ∙ ground arith in
    rw (here, read_bytes-write_bytes (put m a b) (a + 1) bs) refl
