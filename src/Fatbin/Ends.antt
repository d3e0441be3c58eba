-- ===== src/Fatbin/Ends.antt =====
-- The walk ends on every container, whatever its bytes are.
use Prim.Native.String.{String}
use rouge_v.Base.{
  ℕ, zero, suc, ◌+◌, ◌-◌, ◌*◌, ◌%◌, ◌^◌, ◌≤◌, ◌<◌, ◌≡◌, refl, arith, Bool, true, false, List,
  Option, none, some, ◌==◌, ltb, if◌then◌else◌,
}
use rouge_v.Base.Bytes.{Memory}
use rouge_v.Fatbin.{
  Unpacked, message, text, FatbinError, Extracted, Decompress, load, Round, stopped, next,
  stop_with, decoded, clip, unpack_entry, walk_entry, walk_round, walk,
}

module _ (limit : ℕ) where
  -- A round that does not stop goes at least one entry header on, and not past the end.
  GoesOn : ℕ → Round → Type 0
  GoesOn off (stopped r) = Unit
  GoesOn off (next off' out) = (off + 64 ≤ off') × (off' ≤ limit)

  if-GoesOn :
      (off : ℕ) (test : Bool) (r r' : Round)
      → (test ≡ true → GoesOn off r)
      → (test ≡ false → GoesOn off r')
      → GoesOn off (if test then r else r')
  if-GoesOn off true r r' on_true on_false = on_true refl
  if-GoesOn off false r r' on_true on_false = on_false refl

  option-GoesOn :
      (off : ℕ) (o : Option ℕ) (e : FatbinError) (out : List String) (rest : ℕ → Round)
      → ((v : ℕ) → o ≡ some v → GoesOn off (rest v))
      → GoesOn off (elim o [ none ↦ stop_with e out | some v ↦ rest v ])
  unfolding GoesOn
  option-GoesOn off none e out rest on_some = tt
  option-GoesOn off (some v) e out rest on_some = on_some v refl

  decoded-GoesOn :
      (off off' : ℕ) (u : Unpacked) (out : List String)
      → off + 64 ≤ off'
      → off' ≤ limit
      → GoesOn off (decoded u off' out)
  unfolding GoesOn decoded
  decoded-GoesOn off off' (message e) out forward inside = tt
  decoded-GoesOn off off' (text t) out forward inside = (forward, inside)

  clip-le : (n room size : ℕ) → clip n room ≡ some size → size ≤ room
  unfolding clip
  clip-le n room size clipped = ground (arith, clipped)

  module _ (decompress : Decompress) (memory : Memory) (base : ℕ)
      (small : limit + 64 < 2 ^ 64) where
    unpack_entry-GoesOn :
        (off payload size uncompressed : ℕ) (out : List String)
        → off + 64 ≤ payload
        → payload + size ≤ limit
        → GoesOn off (unpack_entry decompress base limit payload size uncompressed out)
    unfolding GoesOn unpack_entry
    unpack_entry-GoesOn off payload size uncompressed out forward inside =
        if-GoesOn off (ltb limit ((payload + 16) % 2 ^ 64)) _ _ (λ h. tt)
          (λ h. decoded-GoesOn off ((payload + size) % 2 ^ 64) _ out (omega arith) (omega arith))

    walk_entry-GoesOn :
        (off payload kind payload_size uncompressed : ℕ) (out : List String)
        → payload ≡ off + 64
        → GoesOn off (walk_entry decompress base limit payload kind payload_size uncompressed out)
    unfolding GoesOn walk_entry
    walk_entry-GoesOn off payload kind payload_size uncompressed out behind =
        if-GoesOn off (ltb limit payload) _ _ (λ h. tt)
          (λ h. option-GoesOn off (clip payload_size (limit - payload)) _ out _ (λ size clipped.
            let fits = clip-le payload_size (limit - payload) size clipped in
            let head : payload ≤ limit = ground arith in
            if-GoesOn off (kind == 1) _ _
              (λ h'.
                unpack_entry-GoesOn off payload size uncompressed out (omega arith) (omega arith))
              (λ h'. (omega arith, omega arith))))

    walk_round-GoesOn :
        (off : ℕ) (out : List String)
        → off ≤ limit
        → GoesOn off (walk_round decompress memory base limit off out)
    unfolding GoesOn walk_round
    walk_round-GoesOn off out inside =
        if-GoesOn off (ltb limit ((off + 64) % 2 ^ 64)) _ _ (λ h. tt)
          (λ h. option-GoesOn off (load 2 memory base limit off) _ out _ (λ kind loaded.
            option-GoesOn off (load 8 memory base limit ((off + 8) % 2 ^ 64)) _ out _
              (λ size loaded'.
                option-GoesOn off (load 8 memory base limit ((off + 56) % 2 ^ 64)) _ out _
                  (λ uncompressed loaded''.
                    walk_entry-GoesOn off ((off + 64) % 2 ^ 64) kind size uncompressed out
                      (omega arith)))))

    round-ends :
        (fuel off : ℕ) (r : Round)
        → GoesOn off r
        → ((off' : ℕ) (out : List String)
            → off + 64 ≤ off'
            → off' ≤ limit
            → (x : Extracted) × (walk decompress memory base limit fuel off' out ≡ some x))
        → (x : Extracted) × ((elim r [
          | stopped y ↦ some y
          | next off' out' ↦ walk decompress memory base limit fuel off' out'
        ])
            ≡ some x)
    unfolding GoesOn
    round-ends fuel off (stopped y) goes rest = (y, refl)
    round-ends fuel off (next off' out) goes rest = rest off' out goes.0 goes.1

    pub walk-ends :
        (fuel off : ℕ) (out : List String)
        → off ≤ limit
        → limit < off + 64 * fuel
        → (r : Extracted) × (walk decompress memory base limit fuel off out ≡ some r)
    unfolding walk
    walk-ends zero off out inside enough = absurd (omega arith)
    walk-ends (suc fuel) off out inside enough =
        round-ends fuel off (walk_round decompress memory base limit off out)
          (walk_round-GoesOn off out inside)
          (λ off' out' forward inside'. walk-ends fuel off' out' inside' (omega arith))
