-- ===== src/Runtime/Launch.antt =====
-- `launch_registered`: the launch of a kernel by its stub, which `cudaLaunchKernel` and
-- `__cudaLaunchKernel` are. The loop over the parameters is the one of cuLaunchKernel.
use rouge_v.Base.{ℕ, Bool, true, not, [], Option, none, some, ◌==◌, if◌then◌else◌, get_elem?}
use rouge_v.Base.Assoc.{lookup}
use rouge_v.Ptx.Execute.{Dim3}
use rouge_v.Ptx.Program.{PtxProgram}
use rouge_v.Driver.Launch.{params_blob}
use rouge_v.Runtime.{CudaError, cuda_success, error_invalid_value, State, World}
use rouge_v.Runtime.Device.{find_kernel}
use rouge_v.Runtime.Register.{load_ptx_modules}

-- The launch of a function of a program. The shared memory is looked at behind the run.
unfoldable pub launch_found :
    World → PtxProgram × ℕ → Dim3 → Dim3 → (ℕ → ℕ) → ℕ → State → CudaError × State
launch_found world (prog, fn_index) grid block args shared_mem s =
    elim (get_elem? prog.functions fn_index) [
      | none ↦ (error_invalid_value, s)
      | some fn ↦ elim (params_blob s.context.memory (some args) fn.params_blob_size fn.params) [
        | none ↦ (error_invalid_value, s)
        | some blob ↦
            let (good, memory) =
              world.host.execute_kernel prog fn_index blob grid block [] s.context.memory in
            let s' = record s { context = record s.context { memory = memory } } in
            if not good
            then (error_invalid_value, s')
            else if not (shared_mem == 0)
            then (error_invalid_value, s')
            else (cuda_success, s')
      ]
    ]

-- The modules are loaded where there are none.
unfoldable pub ready_modules : World → State → Bool × State
ready_modules world s = elim s.runtime_modules [ [] ↦ load_ptx_modules world s | _ ↦ (true, s) ]

-- `args` is the array of the pointers to the parameters.
unfoldable pub launch_registered :
    World → ℕ → Dim3 → Dim3 → Option (ℕ → ℕ) → ℕ → State → CudaError × State
launch_registered world stub grid block none shared_mem s = (error_invalid_value, s)
launch_registered world stub grid block (some args) shared_mem s =
    if stub == 0 then (error_invalid_value, s) else elim (lookup stub s.stub_names) [
      | none ↦ (error_invalid_value, s)
      | some name ↦
          let (ready, s') = ready_modules world s in
          if not ready
          then (error_invalid_value, s')
          else elim (find_kernel name s'.runtime_modules) [
            | none ↦ (error_invalid_value, s')
            | some found ↦ launch_found world found grid block args shared_mem s'
          ]
    ]
