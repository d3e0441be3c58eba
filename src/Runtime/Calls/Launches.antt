-- ===== src/Runtime/Calls/Launches.antt =====
-- A launch by a stub against a launch by a function of a module.
use Prim.Native.String.{String}
use rouge_v.Base.{ℕ, [], some, ◌≡◌, ◌≢◌, ◌↔◌, arith}
use rouge_v.Base.Assoc.{lookup}
use rouge_v.Ptx.Execute.{Dim3}
use rouge_v.Ptx.Program.{PtxProgram}
use rouge_v.Driver.{success, Context}
use rouge_v.Driver.Launch.{cu_launch_kernel}
use rouge_v.Driver.Launch.Bases.{fill_bases-nil}
use rouge_v.Runtime.{cuda_success, State, World}
use rouge_v.Runtime.Device.{find_kernel}
use rouge_v.Runtime.Launch.{launch_found, ready_modules, launch_registered}

launch_registered-launch_found :
    (world : World) (stub : ℕ) (grid block : Dim3) (args : ℕ → ℕ) (shared_mem : ℕ) (s : State)
    (name : String) (found : PtxProgram × ℕ)
    → stub ≢ 0
    → lookup stub s.stub_names ≡ some name
    → s.runtime_modules ≢ []
    → find_kernel name s.runtime_modules ≡ some found
    → launch_registered world stub grid block (some args) shared_mem s
      ≡ launch_found world found grid block args shared_mem s
unfolding launch_registered ready_modules
launch_registered-launch_found world stub grid block args shared_mem s name found there named loaded
      h =
    ground arith

cu_launch_found :
    (world : World) (grid block : Dim3) (args : ℕ → ℕ) (prog : PtxProgram)
    (index key f shared_mem : ℕ) (c : Context) (s : State)
    → lookup f c.funcs ≡ some (record { module_key = key; fn_index = index })
    → lookup key c.modules ≡ some prog
    → c.global_storage ≡ []
    → c.memory ≡ s.context.memory
    → (let (code, s') = launch_found world (prog, index) grid block args shared_mem s in
        let r = cu_launch_kernel world.host f grid block (some args) c in
        ((code ≡ cuda_success) ↔ ((r.result ≡ success) × (shared_mem ≡ 0)))
        × (s'.context.memory ≡ r.context.memory))
unfolding launch_found cu_launch_kernel
cu_launch_found world grid block args prog index key f shared_mem c s func loaded no_storage
      same_memory =
    ground (arith, fill_bases-nil key 0 prog.globals [])

-- A launch by a registered stub, of a kernel that a loaded module has, leaves the bytes that
-- cuLaunchKernel leaves for that function of that program where no global has storage, and
-- succeeds exactly when that does and no dynamic shared memory is asked for.
pub launch_registered-cu_launch_kernel :
    (world : World) (stub : ℕ) (grid block : Dim3) (args : ℕ → ℕ) (shared_mem : ℕ) (s : State)
    (name : String) (prog : PtxProgram) (index key f : ℕ) (c : Context)
    → stub ≢ 0
    → lookup stub s.stub_names ≡ some name
    → s.runtime_modules ≢ []
    → find_kernel name s.runtime_modules ≡ some (prog, index)
    → lookup f c.funcs ≡ some (record { module_key = key; fn_index = index })
    → lookup key c.modules ≡ some prog
    → c.global_storage ≡ []
    → c.memory ≡ s.context.memory
    → (let (code, s') = launch_registered world stub grid block (some args) shared_mem s in
        let r = cu_launch_kernel world.host f grid block (some args) c in
        ((code ≡ cuda_success) ↔ ((r.result ≡ success) × (shared_mem ≡ 0)))
        × (s'.context.memory ≡ r.context.memory))
launch_registered-cu_launch_kernel world stub grid block args shared_mem s name prog index key f c
      stub_there named loaded found func in_module no_storage same_memory =
    let same =
      launch_registered-launch_found world stub grid block args shared_mem s name (prog, index)
        stub_there named loaded found in
    rw same (
      cu_launch_found world grid block args prog index key f shared_mem c s func in_module
        no_storage same_memory)
