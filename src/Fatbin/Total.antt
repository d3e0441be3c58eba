-- ===== src/Fatbin/Total.antt =====
-- `rouge_fatbin_extract_ptx` ends whatever stands in the memory.
use rouge_v.Base.{
  ℕ, suc, ◌+◌, ◌/◌, ◌%◌, ◌^◌, ◌<◌, ◌≡◌, refl, inl, inr, arith, Bool, true, false, [], Option, some,
  ◌==◌, ltb, if◌then◌else◌, Bool-cases,
}
use rouge_v.Base.Bytes.{Memory, read_bytes}
use rouge_v.Fatbin.{
  Extracted, Decompress, number, segment_magic, fatbin_magic, walk_container, open_container,
  rouge_fatbin_extract_ptx,
}
use rouge_v.Fatbin.Entries.{load-inside, no_wrap}
use rouge_v.Fatbin.Container.{Names, load-start, open_segment-open_container}
use rouge_v.Fatbin.Ends.{walk-ends}

unfoldable Ends : Option Extracted → Type 0
Ends o = (r : Extracted) × (o ≡ some r)

if-Ends :
    (test : Bool) (o o' : Option Extracted)
    → (test ≡ true → Ends o)
    → (test ≡ false → Ends o')
    → Ends (if test then o else o')
if-Ends true o o' on_true on_false = on_true refl
if-Ends false o o' on_true on_false = on_false refl

module _ (decompress : Decompress) (memory : Memory) where
  walk_container-Ends :
      (base magic version header_size fat_size : ℕ)
      → header_size + fat_size + 64 < 2 ^ 64
      → Ends (walk_container decompress memory base magic version header_size fat_size)
  unfolding Ends walk_container
  walk_container-Ends base magic version header_size fat_size small =
      if-Ends (magic == fatbin_magic) _ _
        (λ h.
          if-Ends (version == 1) _ _
            (λ h'.
              if-Ends (ltb header_size 16) _ _ (λ h''. (_, refl))
                (λ h''.
                  let limit = (header_size + fat_size) % 2 ^ 64 in
                  let fits : limit ≡ header_size + fat_size =
                    no_wrap (header_size + fat_size) (omega arith) in
                  walk-ends limit decompress memory base (omega arith) (suc (limit / 64))
                    header_size [] (omega arith) (omega arith)))
            (λ h'. (_, refl)))
        (λ h. (_, refl))

  open_container-Ends :
      (base : ℕ)
      → number (read_bytes memory (base + 6) 2) + number (read_bytes memory (base + 8) 8) + 64
        < 2 ^ 64
      → Ends (open_container decompress memory base)
  unfolding open_container Ends
  open_container-Ends base small =
      rw
        (
          open_container,
          load-start 4 memory base 64 (omega arith),
          load-inside 2 memory base 64 4 (omega arith),
          load-inside 2 memory base 64 6 (omega arith),
          load-inside 8 memory base 64 8 (omega arith),
        )
        (walk_container-Ends base _ _ _ _ small)

  Names-total : (handle : ℕ) → (base : ℕ) × Names memory handle base
  unfolding Names
  Names-total handle = elim (Bool-cases (number (read_bytes memory handle 4) == segment_magic)) [
    | inl h ↦ (number (read_bytes memory (handle + 8) 8), inl (ground (arith, h), refl))
    | inr h ↦ (handle, inr (ground (arith, h), refl))
  ]

  -- Where the sizes of the container that the handle names stay 64 below 2 ^ 64, the extraction ends
  -- with a result, whatever the entries are.
  pub extract_ends :
      (handle : ℕ)
      → ((base : ℕ)
          → Names memory handle base
          → number (read_bytes memory (base + 6) 2) + number (read_bytes memory (base + 8) 8) + 64
            < 2 ^ 64)
      → (r : Extracted) × (rouge_fatbin_extract_ptx decompress memory handle ≡ some r)
  unfolding Ends rouge_fatbin_extract_ptx
  extract_ends handle small =
      if-Ends (handle == 0) _ _ (λ h. (_, refl))
        (λ h.
          let named = Names-total handle in
          rw (open_segment-open_container decompress memory handle named.0 named.1)
            (open_container-Ends named.0 (small named.0 named.1)))
