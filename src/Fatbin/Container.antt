-- ===== src/Fatbin/Container.antt =====
-- `rouge_fatbin_extract_ptx` on a handle whose container holds given entries.
use rouge_v.Base.{
  ℕ, suc, ◌+◌, ◌/◌, ◌^◌, ◌≤◌, ◌<◌, ◌≡◌, ◌≢◌, refl, ap, ◌∙◌, ◌⊎◌, inl, inr, arith, false, List, [],
  some, ◌==◌, ltb,
}
use rouge_v.Base.Bytes.{Memory, read_bytes}
use rouge_v.Fatbin.{
  Decompress, number, load, walk, segment_magic, fatbin_magic, walk_container, open_container,
  open_segment, rouge_fatbin_extract_ptx,
}
use rouge_v.Fatbin.Entries.{
  Entry, Holds, ptx_frames, unpack_frames, load-inside, no_wrap, walk-unpack_frames,
}

pub load-start :
    (width : ℕ) (memory : Memory) (base size : ℕ)
    → width ≤ size
    → load width memory base size 0 ≡ some (number (read_bytes memory base width))
load-start width memory base size inside =
    let start : base + 0 ≡ base = omega arith in
    load-inside width memory base size 0 (omega arith)
    ∙ ap (λ (a : ℕ). some (number (read_bytes memory a width))) start

-- The descriptor of a handle names the container, or the handle is the container.
unfoldable pub Names : Memory → ℕ → ℕ → Type 0
Names memory handle base =
    (number (read_bytes memory handle 4) ≡ segment_magic)
      × (number (read_bytes memory (handle + 8) 8) ≡ base)
    ⊎ (number (read_bytes memory handle 4) ≢ segment_magic) × (handle ≡ base)

-- The header of a container, with the size of the header and of the entries.
pub record IsContainer (memory : Memory) (base header_size fat_size : ℕ) : Type 0 where
  pub magic : number (read_bytes memory base 4) ≡ fatbin_magic
  pub version : number (read_bytes memory (base + 4) 2) ≡ 1
  pub header : number (read_bytes memory (base + 6) 2) ≡ header_size
  pub entries : number (read_bytes memory (base + 8) 8) ≡ fat_size
  pub long_enough : 16 ≤ header_size
  pub no_overflow : header_size + fat_size + 64 < 2 ^ 64

module _ (decompress : Decompress) (memory : Memory) where
  pub open_segment-open_container :
      (handle base : ℕ)
      → Names memory handle base
      → open_segment decompress memory handle ≡ open_container decompress memory base
  unfolding Names open_segment
  open_segment-open_container handle base (inl named) =
      let magic = load-start 4 memory handle 64 (omega arith) ∙ ap some named.0 in
      let container = load-inside 8 memory handle 64 8 (omega arith) ∙ ap some named.1 in
      rw (open_segment, magic, container) refl
  open_segment-open_container handle base (inr itself) =
      let magic = load-start 4 memory handle 64 (omega arith) in
      let container = load-inside 8 memory handle 64 8 (omega arith) in
      let other : (number (read_bytes memory handle 4) == segment_magic) ≡ false =
        ground (arith, itself.0) in
      rw (open_segment, magic, container, other, itself.1) refl

  open_container-walk :
      (base header_size fat_size : ℕ)
      → IsContainer memory base header_size fat_size
      → open_container decompress memory base
        ≡ walk decompress memory base
            (header_size + fat_size)
            (suc ((header_size + fat_size) / 64))
            header_size
            []
  unfolding open_container walk_container
  open_container-walk base header_size fat_size c =
      let magic = load-start 4 memory base 64 (omega arith) ∙ ap some c.magic in
      let version = load-inside 2 memory base 64 4 (omega arith) ∙ ap some c.version in
      let header = load-inside 2 memory base 64 6 (omega arith) ∙ ap some c.header in
      let entries = load-inside 8 memory base 64 8 (omega arith) ∙ ap some c.entries in
      let long_enough : ltb header_size 16 ≡ false = ground (arith, c.long_enough) in
      let fits = no_wrap (header_size + fat_size) (omega (arith, c.no_overflow)) in
      rw (open_container, magic, version, header, entries, long_enough, fits) refl

  -- For a handle that is not null, whose container has a sound header and holds entries one behind
  -- the other, with at most 16 bytes of the last payload missing, the extraction ends and gives the
  -- texts of the PTX entries in order, up to the first that the decoder refuses. Each frame is
  -- decoded with the room to the end of the container.
  pub extract-unpack_frames :
      (handle base header_size fat_size : ℕ) (es : List Entry)
      → handle ≢ 0
      → Names memory handle base
      → IsContainer memory base header_size fat_size
      → Holds memory base (header_size + fat_size) header_size es
      → rouge_fatbin_extract_ptx decompress memory handle
        ≡ some
            (unpack_frames decompress [] (ptx_frames base (header_size + fat_size) header_size es))
  unfolding rouge_fatbin_extract_ptx
  extract-unpack_frames handle base header_size fat_size es there named c holds =
      let not_null : (handle == 0) ≡ false = ground arith in
      rw not_null (
        open_segment-open_container handle base named
        ∙ open_container-walk base header_size fat_size c
        ∙ walk-unpack_frames decompress memory base (header_size + fat_size)
            (omega (arith, c.no_overflow)) ((header_size + fat_size) / 64) header_size es []
            (omega arith) holds (omega arith))
