-- ===== src/Runtime.antt =====
-- software/rouge-cuda: the CUDA runtime API on the emulated device (src/runtime_api.cpp and
-- src/runtime_register.cpp), in front of the driver API. A pointer that an operation writes its
-- answer through is a Bool, whether it is there; the answers stand in `out`. The calls that ask
-- for a real symbol are in Runtime/Calls.
pub mod Memory
pub mod Device
pub mod Register
pub mod Launch
pub mod Calls
use Prim.Native.String.{String}
use rouge_v.Base.{ℕ, Bool, not, List, [], ◌∷◌, Option, none, some, if◌then◌else◌}
use rouge_v.Ptx.Execute.{Dim3}
use rouge_v.Ptx.Program.{PtxProgram}
use rouge_v.Driver.{
  CuResult, success, invalid_value, out_of_memory, not_initialized, invalid_handle, not_supported,
  Context, Reply, Host,
}
use rouge_v.Driver.Calls.{Call, Real, driver}
use rouge_v.Fatbin.{Decompress}

pub data CudaError : Type 0 where
  cuda_success error_invalid_value error_memory_allocation error_invalid_device_pointer
        error_invalid_resource_handle error_invalid_device error_invalid_device_function
        error_unknown :
      CudaError

-- The launch configuration of `<<<>>>`.
pub record CallConfig : Type 0 where
  pub grid : Dim3
  pub block : Dim3
  pub shared_mem : ℕ
  pub stream : ℕ

-- The tables of the runtime in front of the driver's context: `tls_last_error` of the thread, the
-- stubs with their kernels' names, the modules, and the configurations, the last one first.
pub record State : Type 0 where
  pub context : Context
  pub last_error : CudaError
  pub stub_names : List (ℕ × String)
  pub runtime_modules : List PtxProgram
  pub config_stack : List CallConfig

pub record Answer : Type 0 where
  pub code : CudaError
  pub out : List ℕ
  pub state : State

-- What stands around the runtime: the driver's own surroundings, the real driver library, the
-- value of ROUGE_CUDA_PTX, the files, and the decoder of fat binaries.
pub record World : Type 0 where
  pub host : Host
  pub real : Real
  pub rouge_cuda_ptx : Option String
  pub read_file : String → Option String
  pub decompress : Decompress

-- `tls_last_error = e; return tls_last_error;`
abbrev pub record_error : CudaError → List ℕ → State → Answer
record_error e out s = record { code = e; out = out; state = record s { last_error = e } }

abbrev pub succeed : List ℕ → State → Answer
succeed out s = record_error cuda_success out s

unfoldable pub map_driver : CuResult → CudaError
map_driver success = cuda_success
map_driver out_of_memory = error_memory_allocation
map_driver invalid_value = error_invalid_value
map_driver invalid_handle = error_invalid_resource_handle
map_driver not_initialized = error_unknown
map_driver not_supported = error_unknown

-- A call that passes on what the driver answers.
abbrev pub through_driver : World → Call → State → Answer
through_driver world call s =
    let r = driver world.real world.host [] call s.context in
    record_error (map_driver r.result) r.out (record s { context = r.context })
