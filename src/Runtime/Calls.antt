-- ===== src/Runtime/Calls.antt =====
-- All calls of the runtime API as one type, and the question for a real symbol that some ask.
mod Kept
pub mod LastError
pub mod Configs
pub mod Launches
pub mod Limits
pub mod Registered
mod Modules
pub mod Programs
pub mod Parsed
pub mod Examples
use Prim.Native.String.{String}
use rouge_v.Base.{ℕ, Bool, true, false, List, [], ◌∷◌, Option, none, some, if◌then◌else◌}
use rouge_v.Ptx.Execute.{Dim3}
use rouge_v.Runtime.{CudaError, cuda_success, CallConfig, State, Answer, World}
use rouge_v.Runtime.Memory.{
  cuda_malloc, cuda_free, cuda_memcpy, cuda_memset, cuda_malloc_host, cuda_free_host, cuda_idle,
  cuda_get_last_error, cuda_peek_at_last_error, cuda_get_device_count, cuda_stream_create,
  cuda_set_device, cuda_get_device,
}
use rouge_v.Runtime.Device.{
  cuda_func_get_attributes, cuda_occupancy_max_active_blocks,
  cuda_occupancy_max_active_blocks_with_flags, cuda_occupancy_max_potential_block_size,
  cuda_occupancy_available_dynamic_smem, CudaDeviceAttribute, cuda_device_get_attribute,
  cuda_get_device_properties,
}
use rouge_v.Runtime.Register.{
  cuda_register_function, cuda_unregister_function, cuda_register_fat_binary,
  cuda_push_call_configuration, cuda_pop_call_configuration,
}
use rouge_v.Runtime.Launch.{launch_registered}

pub data RuntimeCall : Type 0 where
  malloc : Bool → ℕ → RuntimeCall
  free : ℕ → RuntimeCall
  memcpy : ℕ → ℕ → ℕ → RuntimeCall
  device_synchronize : RuntimeCall
  get_last_error : RuntimeCall
  get_device_count : Bool → RuntimeCall
  stream_create : Bool → RuntimeCall
  stream_synchronize : ℕ → RuntimeCall
  stream_destroy : ℕ → RuntimeCall
  set_device : Bool → RuntimeCall
  get_device : Bool → RuntimeCall
  device_reset : RuntimeCall
  get_device_properties : Bool → Bool → RuntimeCall
  peek_at_last_error : RuntimeCall
  malloc_host : Bool → ℕ → RuntimeCall
  free_host : ℕ → RuntimeCall
  memset : ℕ → ℕ → ℕ → RuntimeCall
  func_get_attributes : Bool → ℕ → RuntimeCall
  occupancy_max_active_blocks : Bool → ℕ → ℕ → ℕ → RuntimeCall
  occupancy_max_active_blocks_with_flags : Bool → ℕ → ℕ → ℕ → ℕ → RuntimeCall
  occupancy_max_potential_block_size : Bool → Bool → ℕ → Option (ℕ → ℕ) → ℕ → RuntimeCall
  occupancy_available_dynamic_smem : Bool → ℕ → ℕ → ℕ → RuntimeCall
  device_get_attribute : Bool → CudaDeviceAttribute → Bool → RuntimeCall
  launch_kernel : ℕ → Dim3 → Dim3 → Option (ℕ → ℕ) → ℕ → RuntimeCall
  register_fat_binary : ℕ → RuntimeCall
  register_function : ℕ → Option String → RuntimeCall
  unregister_function : ℕ → RuntimeCall
  push_call_configuration : CallConfig → RuntimeCall
  pop_call_configuration : RuntimeCall

-- A call that has no code of its own answers success here.
abbrev pub quietly : List ℕ → State → Answer
quietly out s = record { code = cuda_success; out = out; state = s }

pub emulate : World → RuntimeCall → State → Answer
emulate world (malloc dev_ptr size) s = cuda_malloc world dev_ptr size s
emulate world (free dev_ptr) s = cuda_free world dev_ptr s
emulate world (memcpy dst src count) s = cuda_memcpy dst src count s
emulate world device_synchronize s = cuda_idle s
emulate world get_last_error s = cuda_get_last_error s
emulate world (get_device_count count) s = cuda_get_device_count world count s
emulate world (stream_create stream) s = cuda_stream_create world stream s
emulate world (stream_synchronize stream) s = cuda_idle s
emulate world (stream_destroy stream) s = cuda_idle s
emulate world (set_device is_zero) s = cuda_set_device is_zero s
emulate world (get_device device) s = cuda_get_device device s
emulate world device_reset s = cuda_idle s
emulate world (get_device_properties prop is_zero) s =
    cuda_get_device_properties world prop is_zero s
emulate world peek_at_last_error s = cuda_peek_at_last_error s
emulate world (malloc_host ptr size) s = cuda_malloc_host world ptr size s
emulate world (free_host ptr) s = cuda_free_host ptr s
emulate world (memset dev_ptr value count) s = cuda_memset dev_ptr value count s
emulate world (func_get_attributes attr func) s = cuda_func_get_attributes attr func s
emulate world (occupancy_max_active_blocks out func size dyn) s =
    cuda_occupancy_max_active_blocks out func size dyn s
emulate world (occupancy_max_active_blocks_with_flags out func size dyn flags) s =
    cuda_occupancy_max_active_blocks_with_flags out func size dyn flags s
emulate world (occupancy_max_potential_block_size grid size func callback fixed) s =
    cuda_occupancy_max_potential_block_size grid size func callback fixed s
emulate world (occupancy_available_dynamic_smem out func blocks size) s =
    cuda_occupancy_available_dynamic_smem out func blocks size s
emulate world (device_get_attribute pi attr is_zero) s = cuda_device_get_attribute pi attr is_zero s
emulate world (launch_kernel stub grid block args shared_mem) s =
    let (code, s') = launch_registered world stub grid block args shared_mem s in
    record { code = code; out = []; state = s' }
emulate world (register_fat_binary handle) s =
    let (answer, s') = cuda_register_fat_binary world handle s in quietly (answer ∷ []) s'
emulate world (register_function stub name) s = quietly [] (cuda_register_function stub name s)
emulate world (unregister_function func) s = quietly [] (cuda_unregister_function func s)
emulate world (push_call_configuration config) s =
    let (code, s') = cuda_push_call_configuration config s in
    record { code = code; out = []; state = s' }
emulate world pop_call_configuration s =
    let (code, config, s') = cuda_pop_call_configuration s in
    record { code = code; out = []; state = s' }

-- The calls that ask for a real symbol first.
pub asks : RuntimeCall → Bool
asks (malloc dev_ptr size) = true
asks (free dev_ptr) = true
asks (memcpy dst src count) = true
asks device_synchronize = true
asks get_last_error = true
asks (get_device_count count) = true
asks (stream_create stream) = true
asks (stream_synchronize stream) = true
asks (stream_destroy stream) = true
asks _ = false

-- What the loaded library answers to a call, where it has the symbol.
abbrev pub RealRuntime : Type 0
RealRuntime = RuntimeCall → Option (CudaError × List ℕ)

pub runtime : RealRuntime → World → RuntimeCall → State → Answer
runtime real world call s = elim (if asks call then real call else none) [
  | none ↦ emulate world call s
  | some (code, out) ↦ record { code = code; out = out; state = s }
]
