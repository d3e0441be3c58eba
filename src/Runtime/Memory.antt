-- ===== src/Runtime/Memory.antt =====
-- Allocation, copies, the last error, streams and the choice of a device.
use rouge_v.Base.{
  ℕ, zero, suc, ◌%◌, Bool, true, not, ◌||◌, ◌&&◌, List, [], ◌∷◌, none, some, ◌==◌, if◌then◌else◌,
}
use rouge_v.Base.Bytes.{write_bytes, read_bytes}
use rouge_v.Driver.{success}
use rouge_v.Driver.Alloc.{at_least_one}
use rouge_v.Driver.Calls
use rouge_v.Driver.Calls.{driver}
use rouge_v.Runtime.{
  cuda_success, error_invalid_value, error_memory_allocation, error_invalid_device, State, Answer,
  World, record_error, succeed, map_driver, through_driver,
}

-- The address is passed on where the driver answers success.
unfoldable pub cuda_malloc : World → Bool → ℕ → State → Answer
cuda_malloc world dev_ptr size s =
    if not dev_ptr
    then record_error error_invalid_value [] s
    else let r = driver world.real world.host [] (Calls.mem_alloc true size) s.context in
      record_error (map_driver r.result) (elim r.result [ success ↦ r.out | _ ↦ [] ])
        (record s { context = r.context })

unfoldable pub cuda_free : World → ℕ → State → Answer
cuda_free world dev_ptr s =
    if dev_ptr == 0
    then record_error error_invalid_value [] s
    else through_driver world (Calls.mem_free dev_ptr) s

-- `memcpy`, for ranges that do not overlap.
unfoldable pub cuda_memcpy : ℕ → ℕ → ℕ → State → Answer
cuda_memcpy dst src count s =
    if not (count == 0) && (dst == 0 || src == 0)
    then record_error error_invalid_value [] s
    else succeed [] (record s {
      context = record s.context {
        memory = write_bytes s.context.memory dst (read_bytes s.context.memory src count);
      };
    })

abbrev pub repeat : ℕ → ℕ → List ℕ
repeat b zero = []
repeat b (suc n) = b ∷ repeat b n

-- `value` is the bits of the `int`.
unfoldable pub cuda_memset : ℕ → ℕ → ℕ → State → Answer
cuda_memset dev_ptr value count s =
    if dev_ptr == 0
    then record_error error_invalid_value [] s
    else succeed [] (record s {
      context = record s.context {
        memory = write_bytes s.context.memory dev_ptr (repeat (value % 256) count);
      };
    })

unfoldable pub cuda_malloc_host : World → Bool → ℕ → State → Answer
cuda_malloc_host world ptr size s =
    if not ptr
    then record_error error_invalid_value [] s
    else elim (world.host.malloc (at_least_one size)) [
      | none ↦ record_error error_memory_allocation [] s
      | some p ↦ succeed (p ∷ []) s
    ]

-- Host memory is in no table.
unfoldable pub cuda_free_host : ℕ → State → Answer
cuda_free_host ptr s = succeed [] s

-- `cudaDeviceSynchronize`, `cudaStreamSynchronize`, `cudaStreamDestroy` and `cudaDeviceReset`:
-- all work is done when a call returns.
unfoldable pub cuda_idle : State → Answer
cuda_idle s = succeed [] s

unfoldable pub cuda_get_last_error : State → Answer
cuda_get_last_error s = record {
  code = s.last_error;
  out = [];
  state = record s { last_error = cuda_success };
}

unfoldable pub cuda_peek_at_last_error : State → Answer
cuda_peek_at_last_error s = record { code = s.last_error; out = []; state = s }

unfoldable pub cuda_get_device_count : World → Bool → State → Answer
cuda_get_device_count world count s =
    if not count
    then record_error error_invalid_value [] s
    else through_driver world (Calls.device_get_count true) s

unfoldable pub cuda_stream_create : World → Bool → State → Answer
cuda_stream_create world stream s =
    if not stream then record_error error_invalid_value [] s else succeed (world.host.new ∷ []) s

-- `is_zero` says whether the ordinal is 0.
unfoldable pub cuda_set_device : Bool → State → Answer
cuda_set_device is_zero s =
    if not is_zero then record_error error_invalid_device [] s else succeed [] s

unfoldable pub cuda_get_device : Bool → State → Answer
cuda_get_device device s =
    if not device then record_error error_invalid_value [] s else succeed (0 ∷ []) s
