-- ===== src/Fatbin/Entries.antt =====
-- The walk of software/rouge-cuda/src/fatbin.cpp over a container that holds given entries.
use Prim.Native.String.{String}
use rouge_v.Base.{
  ℕ, zero, suc, ◌+◌, ◌-◌, ◌*◌, ◌%◌, ◌^◌, ◌≤◌, ◌<◌, ◌≡◌, refl, ap, ◌∙◌, inl, inr, arith, true, false,
  List, [], ◌∷◌, some, ◌==◌, ltb, if◌then◌else◌, Bool-cases,
}
use rouge_v.Base.Bytes.{Memory, read_bytes}
use rouge_v.Fatbin.{
  Unpacked, message, text, Extracted, Decompress, number, load, finish, push_text, stopped, next,
  decoded, clip, unpack_entry, walk_entry, walk_round, walk, unpack_failed,
}

-- The fields of an entry that the walk reads.
pub record Entry : Type 0 where
  pub kind : ℕ
  pub payload_size : ℕ
  pub uncompressed : ℕ

-- The bytes of the payload that the container has.
abbrev present : ℕ → ℕ → Entry → ℕ
present limit off e =
    if ltb (limit - (off + 64)) e.payload_size then limit - (off + 64) else e.payload_size

abbrev end_of : ℕ → ℕ → Entry → ℕ
end_of limit off e = off + 64 + present limit off e

-- The entries that stand in the container from an offset on, one behind the other, each with its
-- payload; the container may lack up to 16 bytes of a payload.
unfoldable pub Holds : Memory → ℕ → ℕ → ℕ → List Entry → Type 0
Holds memory base limit off [] = limit < off + 64
Holds memory base limit off (e ∷ es) =
    (number (read_bytes memory (base + off) 2) ≡ e.kind)
    × (number (read_bytes memory (base + (off + 8)) 8) ≡ e.payload_size)
    × (number (read_bytes memory (base + (off + 56)) 8) ≡ e.uncompressed)
    × (off + 64 + e.payload_size ≤ limit + 16)
    × (off + 64 ≤ limit)
    × (e.kind ≡ 1 → off + 80 ≤ limit)
    × Holds memory base limit (end_of limit off e) es

-- The compressed frame of a PTX entry: where it starts, the room behind it, the declared size.
pub record Frame : Type 0 where
  start : ℕ
  room : ℕ
  declared : ℕ

-- The frames of the PTX entries, in order.
unfoldable pub ptx_frames : ℕ → ℕ → ℕ → List Entry → List Frame
ptx_frames base limit off [] = []
ptx_frames base limit off (e ∷ es) =
    let rest = ptx_frames base limit (end_of limit off e) es in
    if e.kind == 1
    then record { start = base + (off + 80); room = limit - (off + 80); declared = e.uncompressed }
      ∷ rest
    else rest

-- The texts of the frames up to the first that fails.
unfoldable pub unpack_frames : Decompress → List String → List Frame → Extracted
unpack_frames decompress out [] = finish out
unpack_frames decompress out (f ∷ fs) = elim (decompress f.start f.room f.declared) [
  | message e ↦ record { texts = out; error = some (unpack_failed e) }
  | text t ↦ unpack_frames decompress (push_text out t) fs
]

pub load-inside :
    (width : ℕ) (memory : Memory) (base size offset : ℕ)
    → offset + width ≤ size
    → load width memory base size offset ≡ some (number (read_bytes memory (base + offset) width))
unfolding load
load-inside width memory base size offset inside = ground arith

clip-present :
    (limit off : ℕ) (e : Entry)
    → off + 64 + e.payload_size ≤ limit + 16
    → off + 64 ≤ limit
    → clip e.payload_size (limit - (off + 64)) ≡ some (present limit off e)
unfolding clip
clip-present limit off e tail head = ground arith

end_of-le : (limit off : ℕ) (e : Entry) → off + 64 ≤ limit → end_of limit off e ≤ limit
end_of-le limit off e head = ground arith

pub no_wrap : (n : ℕ) → n < 2 ^ 64 → n % 2 ^ 64 ≡ n
no_wrap n small = omega arith

module _ (decompress : Decompress) (memory : Memory) (base limit : ℕ)
    (small : limit + 64 < 2 ^ 64) where
  -- The loads of a round read the fields of the entry.
  walk_round-walk_entry :
      (off : ℕ) (e : Entry) (es : List Entry) (out : List String)
      → Holds memory base limit off (e ∷ es)
      → walk_round decompress memory base limit off out
        ≡ walk_entry decompress base limit (off + 64) e.kind e.payload_size e.uncompressed out
  unfolding Holds walk_round
  walk_round-walk_entry off e es out holds =
      let go_on : ltb limit (off + 64) ≡ false = ground (arith, holds.4) in
      let kind = load-inside 2 memory base limit off (omega (arith, holds.4)) ∙ ap some holds.0 in
      let size =
        load-inside 8 memory base limit (off + 8) (omega (arith, holds.4)) ∙ ap some holds.1 in
      let declared =
        load-inside 8 memory base limit (off + 56) (omega (arith, holds.4)) ∙ ap some holds.2 in
      rw
        (
          no_wrap (off + 64) (omega (arith, holds.4)),
          go_on,
          kind,
          no_wrap (off + 8) (omega (arith, holds.4)),
          size,
          no_wrap (off + 56) (omega (arith, holds.4)),
          declared,
          no_wrap (off + 64) (omega (arith, holds.4)),
        )
        refl

  -- An entry of another kind is passed over.
  walk_entry-other :
      (off : ℕ) (e : Entry) (es : List Entry) (out : List String)
      → Holds memory base limit off (e ∷ es)
      → (e.kind == 1) ≡ false
      → walk_entry decompress base limit (off + 64) e.kind e.payload_size e.uncompressed out
        ≡ next (end_of limit off e) out
  unfolding Holds walk_entry
  walk_entry-other off e es out holds other =
      let inside : ltb limit (off + 64) ≡ false = ground (arith, holds.4) in
      let end = end_of-le limit off e holds.4 in
      rw
        (
          inside,
          clip-present limit off e holds.3 holds.4,
          other,
          no_wrap (end_of limit off e) (omega arith),
        )
        refl

  -- The frame of a PTX entry is handed to the decoder.
  walk_entry-ptx :
      (off : ℕ) (e : Entry) (es : List Entry) (out : List String)
      → Holds memory base limit off (e ∷ es)
      → (e.kind == 1) ≡ true
      → walk_entry decompress base limit (off + 64) e.kind e.payload_size e.uncompressed out
        ≡ decoded
            (decompress (base + (off + 80)) (limit - (off + 80)) e.uncompressed)
            (end_of limit off e)
            out
  unfolding Holds walk_entry unpack_entry
  walk_entry-ptx off e es out holds ptx =
      let inside : ltb limit (off + 64) ≡ false = ground (arith, holds.4) in
      let room : off + 80 ≤ limit = holds.5 (ground arith) in
      let end = end_of-le limit off e holds.4 in
      let frame : ltb limit (off + 64 + 16) ≡ false = ground arith in
      let start : base + (off + 64) + 16 ≡ base + (off + 80) = omega arith in
      let room_left : limit - (off + 64 + 16) ≡ limit - (off + 80) = omega arith in
      rw
        (
          inside,
          clip-present limit off e holds.3 holds.4,
          ptx,
          no_wrap (off + 64 + 16) (omega arith),
          frame,
          no_wrap (end_of limit off e) (omega arith),
        )
        (rw (start, room_left) refl)

  walk-next :
      (fuel off off' : ℕ) (out out' : List String)
      → walk_round decompress memory base limit off out ≡ next off' out'
      → walk decompress memory base limit (suc fuel) off out
        ≡ walk decompress memory base limit fuel off' out'
  unfolding walk
  walk-next fuel off off' out out' round = rw (walk, round) refl

  walk-stopped :
      (fuel off : ℕ) (out : List String) (r : Extracted)
      → walk_round decompress memory base limit off out ≡ stopped r
      → walk decompress memory base limit (suc fuel) off out ≡ some r
  unfolding walk
  walk-stopped fuel off out r round = rw (walk, round) refl

  walk_round-end :
      (off : ℕ) (out : List String)
      → off ≤ limit
      → limit < off + 64
      → walk_round decompress memory base limit off out ≡ stopped (finish out)
  unfolding walk_round
  walk_round-end off out inside end =
      let done : ltb limit (off + 64) ≡ true = ground arith in
      rw (no_wrap (off + 64) (omega arith), done) refl

  walk-decoded :
      (fuel off : ℕ) (e : Entry) (es : List Entry) (out : List String) (u : Unpacked)
      → decompress (base + (off + 80)) (limit - (off + 80)) e.uncompressed ≡ u
      → walk_round decompress memory base limit off out ≡ decoded u (end_of limit off e) out
      → ((out' : List String)
          → walk decompress memory base limit fuel (end_of limit off e) out'
            ≡ some (unpack_frames decompress out' (ptx_frames base limit (end_of limit off e) es)))
      → walk decompress memory base limit (suc fuel) off out
        ≡ some (
            unpack_frames decompress out (
              record {
                start = base + (off + 80);
                room = limit - (off + 80);
                declared = e.uncompressed;
              }
              ∷ ptx_frames base limit (end_of limit off e) es))
  unfolding decoded unpack_frames
  walk-decoded fuel off e es out (message m) unpacked round rest =
      walk-stopped fuel off out (record { texts = out; error = some (unpack_failed m) }) round
      ∙ rw (unpack_frames, unpacked) refl
  walk-decoded fuel off e es out (text t) unpacked round rest =
      walk-next fuel off (end_of limit off e) out (push_text out t) round
      ∙ rest (push_text out t)
      ∙ rw (unpack_frames, unpacked) refl

  -- From an offset inside the container the loop unpacks the frames of the entries that follow.
  pub walk-unpack_frames :
      (fuel off : ℕ) (es : List Entry) (out : List String)
      → off ≤ limit
      → Holds memory base limit off es
      → limit < off + 64 * suc fuel
      → walk decompress memory base limit (suc fuel) off out
        ≡ some (unpack_frames decompress out (ptx_frames base limit off es))
  unfolding Holds ptx_frames unpack_frames
  walk-unpack_frames fuel off [] out inside holds enough =
      walk-stopped fuel off out (finish out) (walk_round-end off out inside holds)
  walk-unpack_frames zero off (e ∷ es) out inside holds enough = absurd (omega (arith, holds.4))
  walk-unpack_frames (suc fuel) off (e ∷ es) out inside holds enough =
      let end = end_of limit off e in
      let rest : (out' : List String)
          → walk decompress memory base limit (suc fuel) end out'
            ≡ some (unpack_frames decompress out' (ptx_frames base limit end es)) =
        λ out'.
          walk-unpack_frames fuel end es out' (end_of-le limit off e holds.4) holds.6
            (omega (arith, holds.4)) in
      let round = walk_round-walk_entry off e es out holds in
      elim (Bool-cases (e.kind == 1)) [
        | inl ptx ↦ rw ptx (
            walk-decoded (suc fuel) off e es out
              (decompress (base + (off + 80)) (limit - (off + 80)) e.uncompressed) refl
              (round ∙ walk_entry-ptx off e es out holds ptx) rest)
        | inr other ↦ rw other (
            walk-next (suc fuel) off end out out (round ∙ walk_entry-other off e es out holds other)
            ∙ rest out)
      ]
