-- ===== src/Fatbin/Examples.antt =====
-- A container with a machine-code entry and a PTX entry that lacks the end of its payload.
use rouge_v.Base.{
  ◌==◌, if◌then◌else◌, ℕ, ◌+◌, ◌≡◌, refl, arith, ◌∙◌, inl, inr, ◌<◌, ◌^◌, none, List, [], ◌∷◌, ◌++◌,
  some,
}
use rouge_v.Base.Bytes.{Memory, write_bytes, read_bytes, zero_bytes}
use rouge_v.Fatbin.{
  Extracted, Decompress, text, message, number, rouge_fatbin_extract_ptx, finish, push_text,
}
use rouge_v.Fatbin.Entries.{Entry, Holds, ptx_frames, unpack_frames}
use rouge_v.Fatbin.Total.{extract_ends}
use mathlib.Core.Path.{subst}
use rouge_v.Fatbin.Container.{Names, IsContainer, extract-unpack_frames}

abbrev segment : List ℕ
segment = 177 ∷ 67 ∷ 98 ∷ 70 ∷ 1 ∷ 0 ∷ 0 ∷ 0 ∷ 208 ∷ 7 ∷ []

abbrev header : List ℕ
header = 80 ∷ 237 ∷ 85 ∷ 186 ∷ 1 ∷ 0 ∷ 16 ∷ 0 ∷ 156 ∷ 0 ∷ 0 ∷ 0 ∷ 0 ∷ 0 ∷ 0 ∷ 0 ∷ []

abbrev pub code_entry : Entry
code_entry = record { kind = 2; payload_size = 8; uncompressed = 0 }

abbrev pub ptx_entry : Entry
ptx_entry = record { kind = 1; payload_size = 32; uncompressed = 3 }

-- The first bytes of the fields of an entry, and zeros up to the next.
abbrev entry_bytes : Entry → ℕ → List ℕ
entry_bytes e room =
    e.kind ∷ 0 ∷ 0 ∷ 0 ∷ 0 ∷ 0 ∷ 0 ∷ 0 ∷ e.payload_size ∷ []
    ++ zero_bytes 47
    ++ e.uncompressed ∷ []
    ++ zero_bytes (7 + room)

abbrev pub memory : Memory
memory =
    write_bytes (write_bytes (λ a. 0) 1000 segment) 2000
      (header ++ entry_bytes code_entry 8 ++ entry_bytes ptx_entry 20)

abbrev pub decompress : Decompress
decompress start room declared =
    if start == 2168 then text ".entry k(){}" else message "unknown frame"

abbrev pub two_entries : List Entry
two_entries = code_entry ∷ ptx_entry ∷ []

pub named : Names memory 1000 2000
unfolding Names number read_bytes write_bytes zero_bytes
named = inl (refl, refl)

pub well_formed : IsContainer memory 2000 16 156
unfolding number read_bytes write_bytes zero_bytes
well_formed = record {
  magic = refl;
  version = refl;
  header = refl;
  entries = refl;
  long_enough = omega arith;
  no_overflow = omega arith;
}

pub held : Holds memory 2000 172 16 two_entries
unfolding Holds number read_bytes write_bytes zero_bytes
held = (
  refl,
  refl,
  refl,
  omega arith,
  omega arith,
  (λ h. omega arith),
  (refl, refl, refl, omega arith, omega arith, (λ h. omega arith), omega arith),
)

extract-unpack_frames_example :
    rouge_fatbin_extract_ptx decompress memory 1000
    ≡ some (unpack_frames decompress [] (ptx_frames 2000 172 16 two_entries))
extract-unpack_frames_example =
    extract-unpack_frames decompress memory 1000 2000 16 156 two_entries (omega arith) named
      well_formed held

-- The one text, whose frame starts at 2000 + 88 + 80.
extracted :
    rouge_fatbin_extract_ptx decompress memory 1000
    ≡ some (record { texts = ".entry k(){}" ∷ []; error = none })
unfolding ptx_frames unpack_frames read_bytes finish push_text
extracted = extract-unpack_frames_example ∙ refl

only_container :
    (base : ℕ)
    → Names memory 1000 base
    → number (read_bytes memory (base + 6) 2) + number (read_bytes memory (base + 8) 8) + 64
      < 2 ^ 64
unfolding Names number read_bytes write_bytes zero_bytes
only_container base (inl itself) =
    subst
      (λ (b : ℕ).
        number (read_bytes memory (b + 6) 2) + number (read_bytes memory (b + 8) 8) + 64 < 2 ^ 64)
      itself.1 (omega arith)
only_container base (inr other) = absurd (other.0 refl)

extract_ends_example : (r : Extracted) × (rouge_fatbin_extract_ptx decompress memory 1000 ≡ some r)
extract_ends_example = extract_ends decompress memory 1000 only_container
