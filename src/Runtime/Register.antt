-- ===== src/Runtime/Register.antt =====
-- src/runtime_register.cpp: the stubs and modules that the static initialisers of a program
-- register, and the stack of launch configurations.
use Prim.Native.String.{String}
use rouge_v.Base.{
  ℕ, Bool, true, false, not, List, [], ◌∷◌, ◌++◌, Option, none, some, ◌==◌, ◌||◌, if◌then◌else◌,
}
use rouge_v.Base.Text.{same_name}
use rouge_v.Base.Chars.{split}
use rouge_v.Base.Assoc.{insert, erase}
use rouge_v.Ptx.Program.{PtxProgram}
use rouge_v.Fatbin.{rouge_fatbin_extract_ptx}
use rouge_v.Runtime.{CudaError, cuda_success, error_invalid_value, CallConfig, State, World}

-- `name` is the text behind the pointer.
unfoldable pub cuda_register_function : ℕ → Option String → State → State
cuda_register_function stub none s = s
cuda_register_function stub (some name) s =
    if stub == 0 then s else record s { stub_names = insert stub name s.stub_names }

unfoldable pub cuda_unregister_function : ℕ → State → State
cuda_unregister_function func s = record s { stub_names = erase func s.stub_names }

-- The programs of the texts that the parser takes.
unfoldable pub parsed_programs : World → List String → List PtxProgram
parsed_programs world [] = []
parsed_programs world (t ∷ ts) = elim (world.host.parse_ptx t) [
  | none ↦ parsed_programs world ts
  | some prog ↦ prog ∷ parsed_programs world ts
]

-- `__cudaRegisterFatBinary` and the handle that it answers. The extraction always has a result.
unfoldable pub cuda_register_fat_binary : World → ℕ → State → ℕ × State
cuda_register_fat_binary world handle s =
    if handle == 0
    then (handle, s)
    else elim (rouge_fatbin_extract_ptx world.decompress s.context.memory handle) [
      | none ↦ (handle, s)
      | some extracted ↦ (
        handle,
        record s { runtime_modules = s.runtime_modules ++ parsed_programs world extracted.texts },
      )
    ]

-- The loop over the paths of ROUGE_CUDA_PTX; `false` is the early return. What was loaded stays.
unfoldable pub load_paths : World → List String → State → Bool × State
load_paths world [] s = (elim s.runtime_modules [ [] ↦ false | _ ↦ true ], s)
load_paths world (path ∷ paths) s = elim (same_name path "") [
  | true ↦ load_paths world paths s
  | false ↦ elim (world.read_file path) [
    | none ↦ (false, s)
    | some image ↦ elim (world.host.parse_ptx image) [
      | none ↦ (false, s)
      | some prog ↦
          load_paths world paths (record s { runtime_modules = s.runtime_modules ++ (prog ∷ []) })
    ]
  ]
]

unfoldable pub load_ptx_modules : World → State → Bool × State
load_ptx_modules world s = elim world.rouge_cuda_ptx [
  | none ↦ (false, s)
  | some list ↦ if same_name list "" then (false, s) else load_paths world (split b':' list) s
]

unfoldable pub cuda_push_call_configuration : CallConfig → State → CudaError × State
cuda_push_call_configuration config s =
    (cuda_success, record s { config_stack = config ∷ s.config_stack })

-- The configuration is written through the pointers that are there.
unfoldable pub cuda_pop_call_configuration : State → CudaError × Option CallConfig × State
cuda_pop_call_configuration s = elim s.config_stack [
  | [] ↦ (error_invalid_value, none, s)
  | config ∷ below ↦ (cuda_success, some config, record s { config_stack = below })
]

-- The kernel's handle is its stub.
unfoldable pub cuda_get_kernel : Bool → ℕ → CudaError × Option ℕ
cuda_get_kernel handle func =
    if not handle || func == 0 then (error_invalid_value, none) else (cuda_success, some func)
