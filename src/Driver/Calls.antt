-- ===== src/Driver/Calls.antt =====
-- All calls of the driver API that keep or read its state, and the dispatch: each one first asks
-- the library that is loaded, `load_real_symbol` with `dlsym`, whether it has the symbol.
pub mod Errors
pub mod Live
pub mod Examples
use Prim.Native.String.{String}
use rouge_v.Base.{ℕ, Bool, List, [], ◌∷◌, Option, none, some}
use rouge_v.Ptx.Execute.{Dim3}
use rouge_v.Driver.{CuResult, Context, Reply, Host}
use rouge_v.Driver.Alloc.{
  cu_mem_alloc, cu_mem_free, cu_memcpy_htod, cu_memcpy_dtoh, cu_memcpy_dtod, cu_mem_get_info,
  cu_mem_host_alloc, cu_mem_free_host, cu_mem_host_get_device_pointer,
}
use rouge_v.Driver.Modules.{
  cu_module_load_data, cu_module_unload, cu_module_get_function, cu_module_get_global,
  FunctionAttribute, cu_func_get_attribute,
}
use rouge_v.Driver.Launch.{cu_launch_kernel}
use rouge_v.Driver.Device.{
  cu_init, cu_device_get_count, cu_device_get, cu_ctx_create, cu_ctx_synchronize, cu_ctx_destroy,
  cu_ctx_set_current, cu_ctx_get_current, cu_ctx_get_device, cu_driver_get_version,
  cu_device_compute_capability, DeviceAttribute, cu_device_get_attribute, cu_device_total_mem,
  cu_stream_create, cu_stream_destroy, cu_stream_idle, cu_occupancy_max_active_blocks,
  cu_occupancy_max_active_blocks_with_flags, cu_occupancy_max_potential_block_size,
}

-- The second spellings of a call, which pass it on to the first.
pub data Spelling : Type 0 where
  v2 async v4 : Spelling

pub data Call : Type 0 where
  init : Call
  device_get_count : Bool → Call
  device_get : Bool → Bool → Call
  ctx_create : Bool → Call
  ctx_synchronize : Call
  ctx_destroy : ℕ → Call
  ctx_set_current : ℕ → Call
  ctx_get_current : Bool → Call
  ctx_get_device : Bool → Call
  driver_get_version : Bool → Call
  device_compute_capability : Bool → Bool → Bool → Call
  device_get_attribute : Bool → DeviceAttribute → Bool → Call
  device_total_mem : Bool → Bool → Call
  mem_alloc : Bool → ℕ → Call
  mem_free : ℕ → Call
  memcpy_htod : ℕ → Bool → List ℕ → Call
  memcpy_dtoh : Bool → ℕ → ℕ → Call
  memcpy_dtod : ℕ → ℕ → ℕ → Call
  mem_get_info : Bool → Bool → Call
  mem_host_alloc : Bool → ℕ → Call
  mem_free_host : ℕ → Call
  mem_host_get_device_pointer : Bool → ℕ → Call
  module_load_data : Bool → Option String → Call
  module_unload : ℕ → Call
  module_get_function : Bool → ℕ → Option String → Call
  module_get_global : Bool → Bool → ℕ → Option String → Call
  func_get_attribute : Bool → FunctionAttribute → ℕ → Call
  launch_kernel : ℕ → Dim3 → Dim3 → Option (ℕ → ℕ) → Call
  stream_create : Bool → Call
  stream_destroy : ℕ → Call
  stream_synchronize : Call
  stream_query : Call
  occupancy_max_active_blocks : Bool → ℕ → ℕ → ℕ → Call
  occupancy_max_active_blocks_with_flags : Bool → ℕ → ℕ → ℕ → ℕ → Call
  occupancy_max_potential_block_size : Bool → Bool → ℕ → Option (ℕ → ℕ) → ℕ → ℕ → Call

-- The part of each call behind the question for a real symbol.
pub emulate : Host → Call → Context → Reply
emulate host init c = cu_init c
emulate host (device_get_count count) c = cu_device_get_count count c
emulate host (device_get device zero_ordinal) c = cu_device_get device zero_ordinal c
emulate host (ctx_create pctx) c = cu_ctx_create host pctx c
emulate host ctx_synchronize c = cu_ctx_synchronize c
emulate host (ctx_destroy ctx) c = cu_ctx_destroy ctx c
emulate host (ctx_set_current ctx) c = cu_ctx_set_current ctx c
emulate host (ctx_get_current pctx) c = cu_ctx_get_current pctx c
emulate host (ctx_get_device device) c = cu_ctx_get_device device c
emulate host (driver_get_version version) c = cu_driver_get_version version c
emulate host (device_compute_capability major minor zero_dev) c =
    cu_device_compute_capability major minor zero_dev c
emulate host (device_get_attribute pi attrib zero_dev) c =
    cu_device_get_attribute pi attrib zero_dev c
emulate host (device_total_mem bytes zero_dev) c = cu_device_total_mem host bytes zero_dev c
emulate host (mem_alloc dptr size) c = cu_mem_alloc host dptr size c
emulate host (mem_free dptr) c = cu_mem_free dptr c
emulate host (memcpy_htod dst src bytes) c = cu_memcpy_htod dst src bytes c
emulate host (memcpy_dtoh dst src count) c = cu_memcpy_dtoh dst src count c
emulate host (memcpy_dtod dst src count) c = cu_memcpy_dtod dst src count c
emulate host (mem_get_info free total) c = cu_mem_get_info host free total c
emulate host (mem_host_alloc pp size) c = cu_mem_host_alloc host pp size c
emulate host (mem_free_host p) c = cu_mem_free_host p c
emulate host (mem_host_get_device_pointer pdptr p) c = cu_mem_host_get_device_pointer pdptr p c
emulate host (module_load_data out image) c = cu_module_load_data host out image c
emulate host (module_unload key) c = cu_module_unload key c
emulate host (module_get_function hfunc hmod name) c = cu_module_get_function host hfunc hmod name c
emulate host (module_get_global dptr bytes hmod name) c =
    cu_module_get_global host dptr bytes hmod name c
emulate host (func_get_attribute pi attrib hfunc) c = cu_func_get_attribute pi attrib hfunc c
emulate host (launch_kernel f grid block params) c = cu_launch_kernel host f grid block params c
emulate host (stream_create stream) c = cu_stream_create host stream c
emulate host (stream_destroy stream) c = cu_stream_destroy stream c
emulate host stream_synchronize c = cu_stream_idle c
emulate host stream_query c = cu_stream_idle c
emulate host (occupancy_max_active_blocks out func size dyn) c =
    cu_occupancy_max_active_blocks out func size dyn c
emulate host (occupancy_max_active_blocks_with_flags out func size dyn flags) c =
    cu_occupancy_max_active_blocks_with_flags out func size dyn flags c
emulate host (occupancy_max_potential_block_size grid size func callback dyn limit) c =
    cu_occupancy_max_potential_block_size grid size func callback dyn limit c

-- `real` is what the loaded library answers to a call under its spellings, the outer one first,
-- where it has the symbol. Its state is not the context, and its answers are its own.
abbrev pub Real : Type 0
Real = List Spelling → Call → Option (CuResult × List ℕ)

-- An alias asks for its own symbol, then is the call that it stands for.
pub driver : Real → Host → List Spelling → Call → Context → Reply
driver real host [] call c = elim (real [] call) [
  | none ↦ emulate host call c
  | some (result, out) ↦ record { result = result; out = out; context = c }
]
driver real host (s ∷ spellings) call c = elim (real (s ∷ spellings) call) [
  | none ↦ driver real host spellings call c
  | some (result, out) ↦ record { result = result; out = out; context = c }
]
