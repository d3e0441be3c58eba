-- ===== src/Driver/Launch.antt =====
-- `cuLaunchKernel`: the parameters are copied into one blob, the backing of the module's globals
-- is looked up by name, and the interpreter runs.
pub mod Marshal
pub mod Bases
use Prim.Native.String.{String}
use rouge_v.Base.{
  ℕ, zero, suc, ◌+◌, ◌*◌, Bool, true, false, not, ◌||◌, List, [], ◌∷◌, ◌++◌, Option, none, some,
  ◌==◌, ltb, if◌then◌else◌, length, get_elem?,
}
use rouge_v.Base.Assoc.{lookup, assign_name}
use rouge_v.Base.Bytes.{Memory, write_bytes, read_bytes}
use rouge_v.Ptx.Execute.{Dim3}
use rouge_v.Ptx.Program.{PtxProgram, PtxParam, PtxGlobalVar}
use rouge_v.Driver.{
  CuResult, success, invalid_value, invalid_handle, Context, FuncInfo, Storage, Reply, fail, ok,
  Host, global_storage_key,
}

-- The loop over the parameters: `pointers` is the array `kernelParams`, and `none` the error.
pub marshal : Memory → (ℕ → ℕ) → ℕ → List PtxParam → Memory → Option Memory
marshal memory pointers blob_size [] blob = some blob
marshal memory pointers blob_size (p ∷ ps) blob =
    let rest =
      marshal memory pointers blob_size ps
        (write_bytes blob p.param_offset (read_bytes memory (pointers p.index) p.width)) in
    if ltb blob_size (p.param_offset + p.width) || pointers p.index == 0 then none else rest

abbrev pub zero_blob : Memory
zero_blob a = 0

-- A null `kernelParams` leaves the zeros.
pub params_blob : Memory → Option (ℕ → ℕ) → ℕ → List PtxParam → Option (List ℕ)
params_blob memory none blob_size ps = some (read_bytes zero_blob 0 blob_size)
params_blob memory (some pointers) blob_size ps =
    elim (marshal memory pointers blob_size ps zero_blob) [
      | none ↦ none
      | some blob ↦ some (read_bytes blob 0 blob_size)
    ]

-- The loop that fills `bases`, over the globals from `i` on.
pub fill_bases :
    ℕ → List (ℕ × Storage) → ℕ → List PtxGlobalVar → List (String × ℕ) → List (String × ℕ)
fill_bases key storage i [] bases = bases
fill_bases key storage i (g ∷ gs) bases =
    fill_bases key storage (i + 1) gs (elim (lookup (global_storage_key key i) storage) [
      | none ↦ bases
      | some s ↦ if s.size == 0 then bases else assign_name g.global_name s.base bases
    ])

unfoldable pub cu_launch_kernel : Host → ℕ → Dim3 → Dim3 → Option (ℕ → ℕ) → Context → Reply
cu_launch_kernel host f grid block kernel_params c = elim (lookup f c.funcs) [
  | none ↦ fail invalid_handle c
  | some info ↦ elim (lookup info.module_key c.modules) [
    | none ↦ fail invalid_handle c
    | some prog ↦ elim (get_elem? prog.functions info.fn_index) [
      | none ↦ fail invalid_value c
      | some fn ↦ elim (params_blob c.memory kernel_params fn.params_blob_size fn.params) [
        | none ↦ fail invalid_value c
        | some blob ↦
            let bases = fill_bases info.module_key c.global_storage 0 prog.globals [] in
            let (good, memory) =
              host.execute_kernel prog info.fn_index blob grid block bases c.memory in
            if good
            then ok [] (record c { memory = memory })
            else fail invalid_value (record c { memory = memory })
      ]
    ]
  ]
]
