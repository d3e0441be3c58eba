-- ===== src/Runtime/Calls/Registered.antt =====
-- The kernels that a fat binary brings.
use Prim.Native.String.{String}
use rouge_v.Base.{
  ℕ, ◌+◌, ◌==◌, List, [], ◌∷◌, ◌++◌, Option, none, some, ◌≡◌, ◌≢◌, refl, arith, false,
}
use rouge_v.Ptx.Program.{PtxProgram}
use rouge_v.Fatbin.Entries.{Entry, Holds, ptx_frames, unpack_frames}
use rouge_v.Fatbin.Container.{Names, IsContainer, extract-unpack_frames}
use rouge_v.Runtime.{State, World}
use rouge_v.Runtime.Device.{find_kernel}
use rouge_v.Runtime.Register.{parsed_programs, cuda_register_fat_binary}

pub first_of : Option (PtxProgram × ℕ) → Option (PtxProgram × ℕ) → Option (PtxProgram × ℕ)
first_of (some found) other = some found
first_of none other = other

find_kernel-append :
    (name : String) (before after : List PtxProgram)
    → find_kernel name (before ++ after)
      ≡ first_of (find_kernel name before) (find_kernel name after)
unfolding find_kernel first_of
find_kernel-append name [] after = refl
find_kernel-append name (prog ∷ before) after = ground (arith, find_kernel-append name before after)

-- Registering a fat binary whose container has a sound header and holds entries answers the handle,
-- leaves all but the modules, and makes a kernel known in the first of the modules that has it:
-- those that were loaded before, then the programs that the parser makes of the texts of the PTX
-- entries, in their order, without those that it refuses.
pub find_kernel-register_fat_binary :
    (world : World) (s : State) (handle base header_size fat_size : ℕ) (es : List Entry)
    (name : String)
    → handle ≢ 0
    → Names s.context.memory handle base
    → IsContainer s.context.memory base header_size fat_size
    → Holds s.context.memory base (header_size + fat_size) header_size es
    → (let frames = ptx_frames base (header_size + fat_size) header_size es in
        let (answer, s') = cuda_register_fat_binary world handle s in
        (answer ≡ handle)
        × (s' ≡ record s { runtime_modules = s'.runtime_modules })
        × (find_kernel name s'.runtime_modules
            ≡ first_of (find_kernel name s.runtime_modules) (
                find_kernel name
                  (parsed_programs world (unpack_frames world.decompress [] frames).texts))))
unfolding cuda_register_fat_binary
find_kernel-register_fat_binary world s handle base header_size fat_size es name there named c
      holds =
    let extracted =
      extract-unpack_frames world.decompress s.context.memory handle base header_size fat_size es
        there named c holds in
    let frames = ptx_frames base (header_size + fat_size) header_size es in
    let not_null : (handle == 0) ≡ false = ground arith in
    rw (cuda_register_fat_binary, not_null, extracted)
      (
        refl,
        refl,
        find_kernel-append name s.runtime_modules
            (parsed_programs world (unpack_frames world.decompress [] frames).texts),
      )
