-- ===== src/Fatbin.antt =====
-- software/rouge-cuda/src/fatbin.cpp: the walk over the container that nvcc embeds. The
-- decompression through libzstd is a parameter, a function of the address, the room behind it
-- and the declared size.
pub mod Entries
pub mod Container
mod Ends
pub mod Total
pub mod Examples
use Prim.Native.String.{String}
use rouge_v.Base.{
  ℕ, zero, suc, ◌+◌, ◌-◌, ◌*◌, ◌/◌, ◌%◌, ◌^◌, Bool, ◌||◌, List, [], ◌∷◌, ◌++◌, Option, none, some,
  ◌==◌, ltb, if◌then◌else◌,
}
use rouge_v.Base.Text.{same_name}
use rouge_v.Base.Bytes.{Memory, read_bytes}

-- The message in `*err`.
pub data FatbinError : Type 0 where
  no_handle : FatbinError
  descriptor_truncated : FatbinError
  container_truncated : FatbinError
  not_a_container : FatbinError
  unsupported_version : ℕ → FatbinError
  implausible_header : FatbinError
  entry_truncated : FatbinError
  entry_past_container : FatbinError
  payload_past_container : FatbinError
  ptx_truncated : FatbinError
  unpack_failed : String → FatbinError
  no_ptx_entry : FatbinError

-- The answer of `decompress_zstd`: the message if it is not empty, or the text.
pub data Unpacked : Type 0 where
  message : String → Unpacked
  text : String → Unpacked

pub record Extracted : Type 0 where
  pub texts : List String
  pub error : Option FatbinError

abbrev pub Decompress : Type 0
Decompress = ℕ → ℕ → ℕ → Unpacked

-- A little-endian number.
pub number : List ℕ → ℕ
number [] = 0
number (b ∷ bs) = b + 256 * number bs

-- `load<T>` for a `T` of `width` bytes.
pub load : ℕ → Memory → ℕ → ℕ → ℕ → Option ℕ
load width memory base size offset =
    if ltb size offset || ltb (size - offset) width
    then none
    else some (number (read_bytes memory (base + offset) width))

pub finish : List String → Extracted
finish [] = record { texts = []; error = some no_ptx_entry }
finish (t ∷ ts) = record { texts = t ∷ ts; error = none }

-- `if (!text.empty()) out.push_back(text)`
pub push_text : List String → String → List String
push_text out t = if same_name t "" then out else out ++ (t ∷ [])

-- One round of the loop ends the walk or goes on from an offset.
pub data Round : Type 0 where
  stopped : Extracted → Round
  next : ℕ → List String → Round

abbrev pub stop_with : FatbinError → List String → Round
stop_with e out = stopped (record { texts = out; error = some e })

-- The tail that a container may lack.
pub clip : ℕ → ℕ → Option ℕ
clip payload_size room =
    if ltb room payload_size
    then (if ltb 16 (payload_size - room) then none else some room)
    else some payload_size

-- The rest of the round behind `decompress_zstd`, with the offset of the next entry.
pub decoded : Unpacked → ℕ → List String → Round
decoded (message e) off out = stop_with (unpack_failed e) out
decoded (text t) off out = next off (push_text out t)

pub unpack_entry : Decompress → ℕ → ℕ → ℕ → ℕ → ℕ → List String → Round
unpack_entry decompress base limit payload size uncompressed out =
    if ltb limit ((payload + 16) % 2 ^ 64)
    then stop_with ptx_truncated out
    else decoded (decompress (base + payload + 16) (limit - (payload + 16) % 2 ^ 64) uncompressed)
        ((payload + size) % 2 ^ 64) out

-- The body of the loop behind the loads.
pub walk_entry : Decompress → ℕ → ℕ → ℕ → ℕ → ℕ → ℕ → List String → Round
walk_entry decompress base limit payload kind payload_size uncompressed out =
    if ltb limit payload
    then stop_with entry_past_container out
    else elim (clip payload_size (limit - payload)) [
      | none ↦ stop_with payload_past_container out
      | some size ↦
          if kind == 1
          then unpack_entry decompress base limit payload size uncompressed out
          else next ((payload + size) % 2 ^ 64) out
    ]

pub walk_round : Decompress → Memory → ℕ → ℕ → ℕ → List String → Round
walk_round decompress memory base limit off out =
    if ltb limit ((off + 64) % 2 ^ 64)
    then stopped (finish out)
    else elim (load 2 memory base limit off) [
      | none ↦ stop_with entry_truncated out
      | some kind ↦ elim (load 8 memory base limit ((off + 8) % 2 ^ 64)) [
        | none ↦ stop_with entry_truncated out
        | some payload_size ↦ elim (load 8 memory base limit ((off + 56) % 2 ^ 64)) [
          | none ↦ stop_with entry_truncated out
          | some uncompressed ↦
              walk_entry decompress base limit ((off + 64) % 2 ^ 64) kind payload_size uncompressed
                out
        ]
      ]
    ]

-- The loop, on fuel.
pub walk : Decompress → Memory → ℕ → ℕ → ℕ → ℕ → List String → Option Extracted
walk decompress memory base limit zero off out = none
walk decompress memory base limit (suc fuel) off out =
    elim (walk_round decompress memory base limit off out) [
      | stopped r ↦ some r
      | next off' out' ↦ walk decompress memory base limit fuel off' out'
    ]

abbrev pub refuse : FatbinError → Option Extracted
refuse e = some (record { texts = []; error = some e })

abbrev pub segment_magic : ℕ
segment_magic = 1180844977

abbrev pub fatbin_magic : ℕ
fatbin_magic = 3126193488

-- The checks of the header behind its loads, and the walk.
pub walk_container : Decompress → Memory → ℕ → ℕ → ℕ → ℕ → ℕ → Option Extracted
walk_container decompress memory base magic version header_size fat_size =
    if magic == fatbin_magic
    then (if version == 1
        then (if ltb header_size 16
            then refuse implausible_header
            else (let limit = (header_size + fat_size) % 2 ^ 64 in
                walk decompress memory base limit (suc (limit / 64)) header_size []))
        else refuse (unsupported_version version))
    else refuse not_a_container

pub open_container : Decompress → Memory → ℕ → Option Extracted
open_container decompress memory base = elim (load 4 memory base 64 0) [
  | none ↦ refuse container_truncated
  | some magic ↦ elim (load 2 memory base 64 4) [
    | none ↦ refuse container_truncated
    | some version ↦ elim (load 2 memory base 64 6) [
      | none ↦ refuse container_truncated
      | some header_size ↦ elim (load 8 memory base 64 8) [
        | none ↦ refuse container_truncated
        | some fat_size ↦ walk_container decompress memory base magic version header_size fat_size
      ]
    ]
  ]
]

pub open_segment : Decompress → Memory → ℕ → Option Extracted
open_segment decompress memory handle = elim (load 4 memory handle 64 0) [
  | none ↦ refuse descriptor_truncated
  | some magic ↦ elim (load 8 memory handle 64 8) [
    | none ↦ refuse descriptor_truncated
    | some container ↦
        open_container decompress memory (if magic == segment_magic then container else handle)
  ]
]

-- A null handle is 0.
pub rouge_fatbin_extract_ptx : Decompress → Memory → ℕ → Option Extracted
rouge_fatbin_extract_ptx decompress memory handle =
    if handle == 0 then refuse no_handle else open_segment decompress memory handle
