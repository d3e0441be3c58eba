-- ===== src/Runtime/Calls/Kept.antt =====
-- What a launch leaves alone in the tables of the runtime.
use Prim.Native.String.{String}
use rouge_v.Base.{ℕ, List, [], ◌∷◌, Option, none, some, ◌≡◌, refl, arith}
use rouge_v.Ptx.Execute.{Dim3}
use rouge_v.Ptx.Program.{PtxProgram}
use rouge_v.Runtime.{State, World}
use rouge_v.Runtime.Register.{load_paths, load_ptx_modules}
use rouge_v.Runtime.Launch.{launch_found, ready_modules, launch_registered}

-- The last error, the stack of configurations and the stubs.
abbrev pub Kept : State → State → Type 0
Kept s s' =
    (s'.last_error ≡ s.last_error)
    × (s'.config_stack ≡ s.config_stack)
    × (s'.stub_names ≡ s.stub_names)

load_paths-Kept :
    (world : World) (paths : List String) (s : State) → Kept s (load_paths world paths s).1
unfolding load_paths
load_paths-Kept world [] s = (refl, refl, refl)
load_paths-Kept world (path ∷ paths) s = grind (arith, load_paths-Kept world paths)

load_ptx_modules-Kept : (world : World) (s : State) → Kept s (load_ptx_modules world s).1
unfolding load_ptx_modules
load_ptx_modules-Kept world s = grind (arith, load_paths-Kept world)

ready_modules-Kept : (world : World) (s : State) → Kept s (ready_modules world s).1
unfolding ready_modules
ready_modules-Kept world s = ground (arith, load_ptx_modules-Kept world s)

launch_found-Kept :
    (world : World) (found : PtxProgram × ℕ) (grid block : Dim3) (args : ℕ → ℕ) (shared_mem : ℕ)
    (s : State)
    → Kept s (launch_found world found grid block args shared_mem s).1
unfolding launch_found
launch_found-Kept world (prog, index) grid block args shared_mem s = ground arith

pub launch_registered-Kept :
    (world : World) (stub : ℕ) (grid block : Dim3) (args : Option (ℕ → ℕ)) (shared_mem : ℕ)
    (s : State)
    → Kept s (launch_registered world stub grid block args shared_mem s).1
unfolding launch_registered
launch_registered-Kept world stub grid block none shared_mem s = (refl, refl, refl)
launch_registered-Kept world stub grid block (some args) shared_mem s =
    grind (arith, ready_modules-Kept world s, launch_found-Kept world)
