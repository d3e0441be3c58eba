-- ===== src/Runtime/Calls/Examples.antt =====
-- The runtime on the machine of the driver's examples, with the fat binary of the container's.
use rouge_v.Base.{ℕ, ◌≤◌, ◌<◌, ◌≡◌, ◌↔◌, true, false, List, [], ◌∷◌, none, some, refl, arith}
use rouge_v.Base.Assoc.{lookup, lookup_name}
use rouge_v.Ptx.Execute.{Dim3}
use rouge_v.Ptx.Program.{PtxProgram}
use Prim.Native.String.{String}
use rouge_v.Base.Chars.{split}
use rouge_v.Base.{Option, Bool, ◌&&◌, ltb, ◌^◌, if◌then◌else◌}
use rouge_v.Base.Bytes.{Memory}
use rouge_v.Ptx.Parse.Module.{Parsing, done, refused, out_of_range, parse_ptx}
use rouge_v.Ptx.Parse.Examples.{image, program}
use rouge_v.Ptx.Parse.WellFormed.Functions.{text_cost, line_shared, line_local}
use rouge_v.Occupancy.{occ_active_blocks}
use rouge_v.Occupancy.Examples.{tile, tile_active}
use rouge_v.Driver.{Context, success}
use rouge_v.Driver.Launch.{cu_launch_kernel}
use rouge_v.Driver.Calls.Examples.{host, prog, start, no_library}
use rouge_v.Fatbin.Entries.{ptx_frames, unpack_frames}
use rouge_v.Fatbin.Examples.{memory, decompress, two_entries, named, well_formed, held}
use rouge_v.Runtime.{CallConfig, State, World, cuda_success}
use rouge_v.Runtime.Device.{find_kernel, max_dynamic_shared_size_bytes}
use rouge_v.Runtime.Register.{
  parsed_programs, cuda_register_fat_binary, cuda_push_call_configuration,
  cuda_pop_call_configuration,
}
use rouge_v.Runtime.Launch.{launch_registered}
use rouge_v.Runtime.Calls
use rouge_v.Runtime.Calls.{RuntimeCall, emulate}
use rouge_v.Runtime.Calls.LastError.{run, pending, last_error_pending}
use rouge_v.Runtime.Calls.Configs.{
  touches, Balanced, empty, other, nested, run_calls, pop_call_configuration-push,
}
use rouge_v.Runtime.Calls.Launches.{launch_registered-cu_launch_kernel}
use rouge_v.Runtime.Calls.Limits.{max_dynamic_shared_size_bytes_exact}
use rouge_v.Runtime.Calls.Registered.{first_of, find_kernel-register_fat_binary}

abbrev one : Dim3
one = record { x = 1; y = 1; z = 1 }

abbrev world : World
world = record {
  host = host;
  real = no_library;
  rouge_cuda_ptx = none;
  read_file = λ path. none;
  decompress = decompress;
}

abbrev fresh : State
fresh = record {
  context = record start { memory = memory };
  last_error = cuda_success;
  stub_names = (64, "scale") ∷ [];
  runtime_modules = prog ∷ [];
  config_stack = [];
}

-- A launch with a null stub behind a free of the null pointer, and a call that is right.
abbrev mistakes : List (World × RuntimeCall)
mistakes =
    (world, Calls.launch_kernel 0 one one none 0)
    ∷ (world, Calls.free 0)
    ∷ (world, Calls.set_device true)
    ∷ []

last_error_pending_example :
    ((emulate world Calls.peek_at_last_error (run mistakes fresh).1).code
      ≡ pending fresh.last_error (run mistakes fresh).0)
    × ((emulate world Calls.get_last_error (run mistakes fresh).1).code
        ≡ pending fresh.last_error (run mistakes fresh).0)
    × ((emulate world Calls.peek_at_last_error
          (emulate world Calls.get_last_error (run mistakes fresh).1).state).code
        ≡ cuda_success)
last_error_pending_example = last_error_pending mistakes fresh world

abbrev config : ℕ → CallConfig
config n = record { grid = one; block = one; shared_mem = n; stream = 0 }

abbrev nest : List (World × RuntimeCall)
nest =
    (world, Calls.push_call_configuration (config 8))
    ∷ (world, Calls.set_device true)
    ∷ (world, Calls.pop_call_configuration)
    ∷ []

set_device_quiet : touches (Calls.set_device true) ≡ false
unfolding touches
set_device_quiet = refl

nest-Balanced : Balanced nest
nest-Balanced =
    nested world world (config 8) ((world, Calls.set_device true) ∷ []) [] refl
      (other world (Calls.set_device true) set_device_quiet empty) empty

pop_call_configuration-push_example :
    (let (code, popped, s') =
        cuda_pop_call_configuration
          (run_calls nest (cuda_push_call_configuration (config 4) fresh).1) in
      (code ≡ cuda_success) × (popped ≡ some (config 4)) × (s'.config_stack ≡ fresh.config_stack))
pop_call_configuration-push_example =
    pop_call_configuration-push (config 4) nest fresh nest-Balanced

abbrev with_handle : Context
with_handle = record start {
  funcs = (77, record { module_key = 8192; fn_index = 0 }) ∷ [];
  memory = memory;
}

stub_named : lookup 64 fresh.stub_names ≡ some "scale"
unfolding lookup
stub_named = refl

kernel_found : find_kernel "scale" fresh.runtime_modules ≡ some (prog, 0)
unfolding find_kernel lookup_name
kernel_found = refl

handle_known : lookup 77 with_handle.funcs ≡ some (record { module_key = 8192; fn_index = 0 })
unfolding lookup
handle_known = refl

module_known : lookup 8192 with_handle.modules ≡ some prog
unfolding lookup
module_known = refl

launch_registered-cu_launch_kernel_example :
    (let (code, s') = launch_registered world 64 one one (some (λ i. 16)) 128 fresh in
      let r = cu_launch_kernel host 77 one one (some (λ i. 16)) with_handle in
      ((code ≡ cuda_success) ↔ ((r.result ≡ success) × (◌≡◌ {A = ℕ} 128 0)))
      × (s'.context.memory ≡ r.context.memory))
launch_registered-cu_launch_kernel_example =
    launch_registered-cu_launch_kernel world 64 one one (λ i. 16) 128 fresh "scale" prog 0 8192 77
      with_handle (omega arith) stub_named (λ h. cc) kernel_found handle_known module_known refl
      refl

max_dynamic_shared_size_bytes_exact_example :
    (0 < occ_active_blocks tile 256 4096) ↔ (4096 ≤ max_dynamic_shared_size_bytes tile)
max_dynamic_shared_size_bytes_exact_example =
    max_dynamic_shared_size_bytes_exact tile 256 4096 (omega arith) tile_active

find_kernel-register_fat_binary_example :
    (let frames = ptx_frames 2000 172 16 two_entries in
      let (answer, s') = cuda_register_fat_binary world 1000 fresh in
      (answer ≡ 1000)
      × (s' ≡ record fresh { runtime_modules = s'.runtime_modules })
      × (find_kernel "scale" s'.runtime_modules
          ≡ first_of (find_kernel "scale" fresh.runtime_modules) (
              find_kernel "scale"
                (parsed_programs world (unpack_frames world.decompress [] frames).texts))))
find_kernel-register_fat_binary_example =
    find_kernel-register_fat_binary world fresh 1000 2000 16 156 two_entries "scale" (omega arith)
      named well_formed held

-- A host that parses texts whose declarations have room, with the parser.
abbrev parsed_or_none : Parsing PtxProgram → Option PtxProgram
parsed_or_none (done prog) = some prog
parsed_or_none refused = none
parsed_or_none out_of_range = none

abbrev has_room : String → Bool
has_room image =
    ltb (text_cost line_shared (split 10 image)) (2 ^ 31)
    && ltb (text_cost line_local (split 10 image)) (2 ^ 31)

abbrev parsing_world : World
parsing_world = record world {
  host = record host {
    parse_ptx = λ image. if has_room image then parsed_or_none (parse_ptx image) else none;
  };
}

abbrev with_program : State
with_program = record fresh { runtime_modules = program ∷ [] }

abbrev two_calls : List (World × RuntimeCall)
two_calls = (parsing_world, Calls.set_device true) ∷ (parsing_world, Calls.free 0) ∷ []
