-- ===== src/Driver/Launch/Marshal.antt =====
-- The blob of a launch holds each parameter at its offset.
use Prim.Native.String.{String}
use rouge_v.Base.{
  ℕ, zero, suc, ◌+◌, ◌≤◌, ◌≡◌, ◌≢◌, refl, arith, false, ◌||◌, List, [], ◌∷◌, Option, none, some,
  ◌==◌, ltb, get_elem?, ◌∙◌, inl,
}
use rouge_v.Base.Bytes.{
  Memory, write_bytes, read_bytes, length-read_bytes, read_bytes-apart, read_bytes-write_bytes,
}
use rouge_v.Ptx.Program.{PtxParam, PtxFunction}
use rouge_v.Ptx.Params.{parse_param_entries}
use rouge_v.Ptx.Params.Packed.{ParamsPacked, SignaturePacked, parse_param_entries-SignaturePacked}
use rouge_v.Driver.Launch.{marshal, params_blob, zero_blob}

abbrev AllPresent : (ℕ → ℕ) → List PtxParam → Type 0
AllPresent pointers [] = Unit {0}
AllPresent pointers (p ∷ ps) = (pointers p.index ≢ 0) × AllPresent pointers ps

all_present :
    (pointers : ℕ → ℕ) (ps : List PtxParam) → ((i : ℕ) → pointers i ≢ 0) → AllPresent pointers ps
all_present pointers [] h = tt
all_present pointers (p ∷ ps) h = (h p.index, all_present pointers ps h)

ends_within :
    (from at : ℕ) (ps : List PtxParam) (size : ℕ) → ParamsPacked from at ps size → from ≤ size
ends_within from at [] size h = h
ends_within from at (p ∷ ps) size h =
    let rest = ends_within (p.param_offset + p.width) (at + 1) ps size h.2 in omega (arith, h.0)

-- The blob of packed parameters, with the bytes below them left and each parameter in its place.
abbrev Marshalled : Memory → (ℕ → ℕ) → ℕ → List PtxParam → Memory → Option Memory → Type 0
Marshalled memory pointers from ps blob none = ⊥
Marshalled memory pointers from ps blob (some blob') =
    ((a n : ℕ) → a + n ≤ from → read_bytes blob' a n ≡ read_bytes blob a n)
    × ((k : ℕ) (p : PtxParam)
        → get_elem? ps k ≡ some p
        → read_bytes blob' p.param_offset p.width ≡ read_bytes memory (pointers p.index) p.width)

marshal-Marshalled :
    (memory : Memory) (pointers : ℕ → ℕ) (size from at : ℕ) (ps : List PtxParam) (blob : Memory)
    → ParamsPacked from at ps size
    → AllPresent pointers ps
    → Marshalled memory pointers from ps blob (marshal memory pointers size ps blob)
unfolding marshal
marshal-Marshalled memory pointers size from at [] blob packed here =
    (λ a n h. refl, λ k p h. absurd (cc))
marshal-Marshalled memory pointers size from at (p ∷ ps) blob packed here =
    let bytes = read_bytes memory (pointers p.index) p.width in
    let blob' = write_bytes blob p.param_offset bytes in
    let next = p.param_offset + p.width in
    let within = ends_within next (at + 1) ps size packed.2 in
    let fits : (ltb size next || pointers p.index == 0) ≡ false = ground (arith, within, here.0) in
    rw fits (
      extend (marshal memory pointers size ps blob')
        (marshal-Marshalled memory pointers size next (at + 1) ps blob' packed.2 here.1))
  where
    in_place :
        (final : Memory)
        → read_bytes final p.param_offset p.width ≡ read_bytes memory (pointers p.index) p.width
        → ((k : ℕ) (q : PtxParam)
            → get_elem? ps k ≡ some q
            → read_bytes final q.param_offset q.width
              ≡ read_bytes memory (pointers q.index) q.width)
        → (k : ℕ) (q : PtxParam) → get_elem? (p ∷ ps) k ≡ some q
        → read_bytes final q.param_offset q.width ≡ read_bytes memory (pointers q.index) q.width
    in_place final own later zero q h = let same : p ≡ q = cc in rw same at own
    in_place final own later (suc k) q h = later k q h

    extend :
        (o : Option Memory)
        → Marshalled memory pointers
            (p.param_offset + p.width)
            ps
            (write_bytes blob p.param_offset (read_bytes memory (pointers p.index) p.width))
            o
        → Marshalled memory pointers from (p ∷ ps) blob o
    extend none m = m
    extend (some final) m =
        let bytes = read_bytes memory (pointers p.index) p.width in
        let long = length-read_bytes memory (pointers p.index) p.width in
        let own : read_bytes final p.param_offset p.width ≡ bytes =
          m.0 p.param_offset p.width (omega arith)
          ∙ rw long at (read_bytes-write_bytes blob p.param_offset bytes) in
        (
          λ a n h.
              m.0 a n (omega (arith, packed.0))
              ∙ read_bytes-apart blob p.param_offset bytes a n (inl (omega (arith, packed.0))),
          λ k q h. in_place final own (λ j. m.1 j) k q h,
        )

-- A launch with pointers that are all there, of a function whose parameters are packed, gets a
-- blob in which the bytes of each parameter are the bytes behind its pointer.
pub params_blob-SignaturePacked :
    (fn : PtxFunction) (memory : Memory) (pointers : ℕ → ℕ)
    → SignaturePacked fn
    → ((i : ℕ) → pointers i ≢ 0)
    → (blob : Memory) × (params_blob memory (some pointers) fn.params_blob_size fn.params
        ≡ some (read_bytes blob 0 fn.params_blob_size))
      × ((k : ℕ) (p : PtxParam)
          → get_elem? fn.params k ≡ some p
          → (p.index ≡ k)
            × (p.param_offset + p.width ≤ fn.params_blob_size)
            × (read_bytes blob p.param_offset p.width ≡ read_bytes memory (pointers k) p.width))
unfolding params_blob
params_blob-SignaturePacked fn memory pointers packed present =
    finish packed (marshal memory pointers fn.params_blob_size fn.params zero_blob) (
      marshal-Marshalled memory pointers fn.params_blob_size 0 0 fn.params zero_blob packed
        (all_present pointers fn.params present))
  where
    placed :
        (from at : ℕ) (ps : List PtxParam) (size : ℕ)
        → ParamsPacked from at ps size
        → (k : ℕ) (p : PtxParam) → get_elem? ps k ≡ some p
        → (p.index ≡ at + k) × (p.param_offset + p.width ≤ size)
    placed from at [] size h k p e = absurd (cc)
    placed from at (q ∷ ps) size h zero p e =
        let same : q ≡ p = cc in
        let rest = ends_within (q.param_offset + q.width) (at + 1) ps size h.2 in
        let here : (q.index ≡ at + 0) × (q.param_offset + q.width ≤ size) =
          (omega (arith, h.1), rest) in
        rw same at here
    placed from at (q ∷ ps) size h (suc k) p e =
        let later = placed (q.param_offset + q.width) (at + 1) ps size h.2 k p e in
        (omega (arith, later), later.1)

    finish :
        SignaturePacked fn
        → (o : Option Memory) → Marshalled memory pointers 0 fn.params zero_blob o
        → (blob : Memory) × ((elim o as (λ x. Option (List ℕ)) [
          | none ↦ none
          | some b ↦ some (read_bytes b 0 fn.params_blob_size)
        ])
            ≡ some (read_bytes blob 0 fn.params_blob_size))
          × ((k : ℕ) (p : PtxParam)
              → get_elem? fn.params k ≡ some p
              → (p.index ≡ k)
                × (p.param_offset + p.width ≤ fn.params_blob_size)
                × (read_bytes blob p.param_offset p.width ≡ read_bytes memory (pointers k) p.width))
    finish packed none m = absurd m
    finish packed (some blob) m = (
      blob,
      refl,
      λ k p h.
          let place = placed 0 0 fn.params fn.params_blob_size packed k p h in
          let index : p.index ≡ k = omega (arith, place) in
          let read = m.1 k p h in (index, place.1, rw index at read),
    )

-- The parameters that the parser lays out, from a function that has none, are handed over whole:
-- a launch with pointers that are all there gets a blob, and each parameter's bytes in it are the
-- bytes behind its pointer.
params_blob-parse_param_entries :
    (entries : List (List String)) (fn₀ fn : PtxFunction) (memory : Memory) (pointers : ℕ → ℕ)
    → SignaturePacked fn₀
    → parse_param_entries entries fn₀ ≡ some fn
    → ((i : ℕ) → pointers i ≢ 0)
    → (blob : Memory) × (params_blob memory (some pointers) fn.params_blob_size fn.params
        ≡ some (read_bytes blob 0 fn.params_blob_size))
      × ((k : ℕ) (p : PtxParam)
          → get_elem? fn.params k ≡ some p
          → (p.index ≡ k)
            × (p.param_offset + p.width ≤ fn.params_blob_size)
            × (read_bytes blob p.param_offset p.width ≡ read_bytes memory (pointers k) p.width))
params_blob-parse_param_entries entries fn₀ fn memory pointers packed₀ parsed present =
    let good = parse_param_entries-SignaturePacked entries fn₀ packed₀ in
    let packed : SignaturePacked fn = rw parsed at good in
    params_blob-SignaturePacked fn memory pointers packed present
