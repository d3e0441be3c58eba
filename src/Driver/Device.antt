-- ===== src/Driver/Device.antt =====
-- Device and context queries, streams, errors and the occupancy calls.
pub mod Limit
use Prim.Native.String.{String}
use rouge_v.Base.{
  ℕ, zero, suc, ◌+◌, ◌*◌, ◌/◌, Bool, true, false, not, ◌||◌, ◌&&◌, List, [], ◌∷◌, Option, none,
  some, ◌==◌, ltb, leb, if◌then◌else◌,
}
use rouge_v.Base.Assoc.{lookup}
use rouge_v.Occupancy.{
  KernelStats, Best, no_best, dynamic_smem_of, occ_active_blocks, occ_potential_block_size,
}
use rouge_v.Occupancy.Liveness.{kernel_stats}
use rouge_v.Driver.{
  CuResult, success, invalid_value, out_of_memory, not_initialized, invalid_handle, not_supported,
  Context, FuncInfo, Reply, fail, ok, Host,
}

abbrev pub answer : Bool → ℕ → Context → Reply
answer ptr v c = if not ptr then fail invalid_value c else ok (v ∷ []) c

unfoldable pub cu_init : Context → Reply
cu_init c = ok [] c

unfoldable pub cu_device_get_count : Bool → Context → Reply
cu_device_get_count count c = answer count 1 c

-- `is_zero` says whether the ordinal, or the device, is 0.
unfoldable pub cu_device_get : Bool → Bool → Context → Reply
cu_device_get device is_zero c =
    if not device
    then fail invalid_value c
    else if not is_zero
    then fail invalid_value c
    else ok (0 ∷ []) c

unfoldable pub cu_ctx_create : Host → Bool → Context → Reply
cu_ctx_create host pctx c =
    if not pctx
    then fail invalid_value c
    else ok (host.the_context ∷ []) (record c { current = host.the_context })

unfoldable pub cu_ctx_synchronize : Context → Reply
cu_ctx_synchronize c = ok [] c

unfoldable pub cu_ctx_destroy : ℕ → Context → Reply
cu_ctx_destroy ctx c = ok [] (if c.current == ctx then record c { current = 0 } else c)

unfoldable pub cu_ctx_set_current : ℕ → Context → Reply
cu_ctx_set_current pctx c = ok [] (record c { current = pctx })

unfoldable pub cu_ctx_get_current : Bool → Context → Reply
cu_ctx_get_current pctx c = answer pctx c.current c

unfoldable pub cu_ctx_get_device : Bool → Context → Reply
cu_ctx_get_device device c = answer device 0 c

unfoldable pub cu_driver_get_version : Bool → Context → Reply
cu_driver_get_version version c = answer version 13040 c

unfoldable pub cu_device_compute_capability : Bool → Bool → Bool → Context → Reply
cu_device_compute_capability major minor is_zero c =
    if not major || not minor
    then fail invalid_value c
    else if not is_zero
    then fail invalid_value c
    else ok (7 ∷ 5 ∷ []) c

pub data DeviceAttribute : Type 0 where
  threads_per_block warp_size multiprocessor_count concurrent_kernels threads_per_multiprocessor
        capability_major capability_minor other_device_attribute :
      DeviceAttribute

pub attribute_value : DeviceAttribute → Option ℕ
attribute_value threads_per_block = some 1024
attribute_value warp_size = some 32
attribute_value multiprocessor_count = some 1
attribute_value concurrent_kernels = some 0
attribute_value threads_per_multiprocessor = some 2048
attribute_value capability_major = some 7
attribute_value capability_minor = some 5
attribute_value other_device_attribute = none

unfoldable pub cu_device_get_attribute : Bool → DeviceAttribute → Bool → Context → Reply
cu_device_get_attribute pi attrib is_zero c =
    if not pi
    then fail invalid_value c
    else if not is_zero
    then fail invalid_value c
    else elim (attribute_value attrib) [ none ↦ fail not_supported c | some v ↦ ok (v ∷ []) c ]

unfoldable pub cu_device_total_mem : Host → Bool → Bool → Context → Reply
cu_device_total_mem host bytes is_zero c =
    if not bytes
    then fail invalid_value c
    else if not is_zero
    then fail invalid_value c
    else ok (host.phys_mem ∷ []) c

unfoldable pub cu_stream_create : Host → Bool → Context → Reply
cu_stream_create host stream c = answer stream host.new c

unfoldable pub cu_stream_destroy : ℕ → Context → Reply
cu_stream_destroy stream c = ok [] c

-- `cuStreamSynchronize` and `cuStreamQuery`.
unfoldable pub cu_stream_idle : Context → Reply
cu_stream_idle c = ok [] c

unfoldable pub stats_for_cufunc : ℕ → Context → Option KernelStats
stats_for_cufunc func c = if func == 0 then none else elim (lookup func c.funcs) [
  | none ↦ none
  | some info ↦ elim (lookup info.module_key c.modules) [
    | none ↦ none
    | some prog ↦ kernel_stats c.beyond_rows prog info.fn_index
  ]
]

-- A block size that is not positive is 0 here.
unfoldable pub cu_occupancy_max_active_blocks : Bool → ℕ → ℕ → ℕ → Context → Reply
cu_occupancy_max_active_blocks num_blocks func block_size dynamic_smem c =
    if not num_blocks || func == 0 || block_size == 0
    then fail invalid_value c
    else elim (stats_for_cufunc func c) [
      | none ↦ fail invalid_handle c
      | some st ↦ ok (occ_active_blocks st block_size dynamic_smem ∷ []) c
    ]

unfoldable pub cu_occupancy_max_active_blocks_with_flags : Bool → ℕ → ℕ → ℕ → ℕ → Context → Reply
cu_occupancy_max_active_blocks_with_flags num_blocks func block_size dynamic_smem flags c =
    if not (flags == 0) && not (flags == 1)
    then fail invalid_value c
    else cu_occupancy_max_active_blocks num_blocks func block_size dynamic_smem c

-- One round of the search under a limit, for a size of `try_size` threads.
pub limited_try : KernelStats → Option (ℕ → ℕ) → ℕ → ℕ → Best → Best
limited_try st callback fixed try_size best =
    let active = occ_active_blocks st try_size (dynamic_smem_of callback fixed try_size) in
    if ltb best.threads (try_size * active)
    then record { block = try_size; num_blocks = active; threads = try_size * active }
    else best

-- The rounds left: the size tried is 32 times that.
pub limited_loop : KernelStats → Option (ℕ → ℕ) → ℕ → ℕ → Best → Best
limited_loop st callback fixed zero best = best
limited_loop st callback fixed (suc left) best =
    let best' = limited_try st callback fixed (32 * suc left) best in
    let rest = limited_loop st callback fixed left best' in
    if best'.threads == 1024 then best' else rest

-- A limit that is not positive is 0 here. The answers are the grid size and the block size.
unfoldable pub cu_occupancy_max_potential_block_size :
    Bool → Bool → ℕ → Option (ℕ → ℕ) → ℕ → ℕ → Context → Reply
cu_occupancy_max_potential_block_size min_grid block_size func callback fixed limit c =
    if not min_grid || not block_size || func == 0
    then fail invalid_value c
    else elim (stats_for_cufunc func c) [
      | none ↦ fail invalid_handle c
      | some st ↦
          if ltb 0 limit && ltb limit 1024
          then (let best = limited_loop st callback fixed (limit / 32) no_best in
              ok (best.num_blocks ∷ best.block ∷ []) c)
          else (let (grid, size) = occ_potential_block_size st callback fixed 1 in
              ok (grid ∷ size ∷ []) c)
    ]

-- `cuGetErrorName` for a pointer that is there; `none` is a number that is no `CUresult`.
unfoldable pub cu_get_error_name : Option CuResult → String
cu_get_error_name (some success) = "CUDA_SUCCESS"
cu_get_error_name (some invalid_value) = "CUDA_ERROR_INVALID_VALUE"
cu_get_error_name (some out_of_memory) = "CUDA_ERROR_OUT_OF_MEMORY"
cu_get_error_name (some not_initialized) = "CUDA_ERROR_NOT_INITIALIZED"
cu_get_error_name (some invalid_handle) = "CUDA_ERROR_INVALID_HANDLE"
cu_get_error_name (some not_supported) = "CUDA_ERROR_NOT_SUPPORTED"
cu_get_error_name none = "CUDA_ERROR_UNKNOWN"

unfoldable pub cu_get_error_string : Option CuResult → String
cu_get_error_string (some success) = "CUDA_SUCCESS"
cu_get_error_string (some invalid_value) = "invalid value"
cu_get_error_string (some out_of_memory) = "out of memory"
cu_get_error_string (some not_initialized) = "not initialized"
cu_get_error_string (some invalid_handle) = "invalid resource handle"
cu_get_error_string (some not_supported) = "not supported on this device/backend"
cu_get_error_string none = "unknown driver error"
