-- ===== src/Driver.antt =====
-- software/rouge-cuda: the CUDA driver API on the emulated device (src/driver_api.cpp and
-- src/rouge_internal.h). A pointer is its address, 0 the null pointer; a pointer that an
-- operation writes its answer through is a Bool, whether it is there, and the answers stand in
-- `out`, in the order of the arguments. A call that a real library answers is in Driver/Calls.
pub mod Alloc
pub mod Modules
pub mod Launch
pub mod Device
pub mod Calls
use Prim.Native.String.{String}
use rouge_v.Base.{ℕ, Bool, ◌+◌, ◌*◌, ◌%◌, ◌^◌, List, [], ◌∷◌, Option, none, some}
use rouge_v.Base.Bytes.{Memory}
use rouge_v.Ptx.Execute.{Dim3}
use rouge_v.Ptx.Program.{PtxProgram}
use rouge_v.Occupancy.Liveness.{Bits}

pub data CuResult : Type 0 where
  success invalid_value out_of_memory not_initialized invalid_handle not_supported : CuResult

-- `Context::FuncInfo`.
pub record FuncInfo : Type 0 where
  pub module_key : ℕ
  pub fn_index : ℕ

-- One vector of `globalStorage`: where its bytes are, and how many.
pub record Storage : Type 0 where
  pub base : ℕ
  pub size : ℕ

-- `Context`, with the current context of the thread and the bytes of the process, those that the
-- estimate of registers reads behind its rows apart (Occupancy/Liveness).
pub record Context : Type 0 where
  pub allocations : List ℕ
  pub modules : List (ℕ × PtxProgram)
  pub funcs : List (ℕ × FuncInfo)
  pub global_storage : List (ℕ × Storage)
  pub current : ℕ
  pub memory : Memory
  pub beyond_rows : Bits

pub record Reply : Type 0 where
  pub result : CuResult
  pub out : List ℕ
  pub context : Context

abbrev pub fail : CuResult → Context → Reply
fail e c = record { result = e; out = []; context = c }

abbrev pub ok : List ℕ → Context → Reply
ok out c = record { result = success; out = out; context = c }

-- What a call takes from outside: the answers of `malloc`, of `new` and of `operator new` for the
-- bytes of a vector, the memory of the machine, the address of the one context, the PTX parser,
-- and the interpreter, which says
-- whether the launch went well and leaves a memory in both cases.
pub record Host : Type 0 where
  pub malloc : ℕ → Option ℕ
  pub new : ℕ
  pub phys_mem : ℕ
  pub the_context : ℕ
  pub parse_ptx : String → Option PtxProgram
  pub execute_kernel :
      PtxProgram → ℕ → List ℕ → Dim3 → Dim3 → List (String × ℕ) → Memory → Bool × Memory

pub golden : ℕ
golden = 0x9E3779B97F4A7C15

-- The index is an `int` that is not negative.
unfoldable pub global_storage_key : ℕ → ℕ → ℕ
unfolding golden
global_storage_key module_key global_index = (module_key + global_index * golden % 2 ^ 64) % 2 ^ 64
