-- ===== src/Runtime/Device.antt =====
-- Function attributes, occupancy and device attributes of the runtime.
use Prim.Native.String.{String}
use rouge_v.Base.{
  ℕ, ◌-◌, Bool, not, ◌||◌, ◌&&◌, List, [], ◌∷◌, Option, none, some, ◌==◌, leb, if◌then◌else◌, map,
}
use rouge_v.Base.Assoc.{lookup, lookup_name}
use rouge_v.Occupancy.{
  KernelStats, occ_active_blocks, occ_potential_block_size, occ_available_dynamic_smem,
}
use rouge_v.Occupancy.Liveness.{kernel_stats}
use rouge_v.Ptx.Program.{PtxProgram}
use rouge_v.Runtime.{
  error_invalid_value, error_invalid_device, error_invalid_device_function, State, Answer, World,
  record_error, succeed,
}

-- The first of the programs that has a function of the name, with the index of the function.
unfoldable pub find_kernel : String → List PtxProgram → Option (PtxProgram × ℕ)
find_kernel name [] = none
find_kernel name (prog ∷ progs) = elim (lookup_name name prog.function_index) [
  | none ↦ find_kernel name progs
  | some index ↦ some (prog, index)
]

-- The modules of the runtime come before those of the driver.
unfoldable pub find_kernel_program : String → State → Option (PtxProgram × ℕ)
find_kernel_program name s = elim (find_kernel name s.runtime_modules) [
  | none ↦ find_kernel name (map (λ (m : ℕ × PtxProgram). m.1) s.context.modules)
  | some found ↦ some found
]

unfoldable pub stats_for_stub : ℕ → State → Option KernelStats
stats_for_stub func s = if func == 0 then none else elim (lookup func s.stub_names) [
  | none ↦ none
  | some name ↦ elim (find_kernel_program name s) [
    | none ↦ none
    | some (prog, fn_index) ↦ kernel_stats s.context.beyond_rows prog fn_index
  ]
]

-- The fields of `cudaFuncAttributes` that are not a constant 0, in their order in
-- `fill_func_attributes`; the carveout, -1, is left out.
abbrev pub max_dynamic_shared_size_bytes : KernelStats → ℕ
max_dynamic_shared_size_bytes st = if leb 49152 st.static_smem then 0 else 49152 - st.static_smem

unfoldable pub fill_func_attributes : KernelStats → List ℕ
fill_func_attributes st =
    st.static_smem
    ∷ st.const_size
    ∷ st.local_size
    ∷ 1024
    ∷ st.num_regs
    ∷ st.target_sm
    ∷ st.target_sm
    ∷ max_dynamic_shared_size_bytes st
    ∷ []

-- What the queries of a kernel share: the statistics of a stub, or the error.
abbrev pub with_stats : ℕ → State → (KernelStats → Answer) → Answer
with_stats func s use_stats = elim (stats_for_stub func s) [
  | none ↦ record_error error_invalid_device_function [] s
  | some st ↦ use_stats st
]

unfoldable pub cuda_func_get_attributes : Bool → ℕ → State → Answer
cuda_func_get_attributes attr func s =
    if not attr || func == 0
    then record_error error_invalid_value [] s
    else with_stats func s (λ st. succeed (fill_func_attributes st) s)

-- A block size that is not positive is 0 here.
unfoldable pub cuda_occupancy_max_active_blocks : Bool → ℕ → ℕ → ℕ → State → Answer
cuda_occupancy_max_active_blocks num_blocks func block_size dynamic_smem s =
    if not num_blocks || func == 0 || block_size == 0
    then record_error error_invalid_value [] s
    else with_stats func s (λ st. succeed (occ_active_blocks st block_size dynamic_smem ∷ []) s)

unfoldable pub cuda_occupancy_max_active_blocks_with_flags : Bool → ℕ → ℕ → ℕ → ℕ → State → Answer
cuda_occupancy_max_active_blocks_with_flags num_blocks func block_size dynamic_smem flags s =
    if not (flags == 0) && not (flags == 1)
    then record_error error_invalid_value [] s
    else cuda_occupancy_max_active_blocks num_blocks func block_size dynamic_smem s

unfoldable pub cuda_occupancy_max_potential_block_size :
    Bool → Bool → ℕ → Option (ℕ → ℕ) → ℕ → State → Answer
cuda_occupancy_max_potential_block_size min_grid block_size func callback fixed s =
    if not min_grid || not block_size || func == 0
    then record_error error_invalid_value [] s
    else with_stats func s (λ st.
      let (grid, size) = occ_potential_block_size st callback fixed 1 in
      succeed (grid ∷ size ∷ []) s)

-- Numbers of blocks and threads that are not positive are 0 here.
unfoldable pub cuda_occupancy_available_dynamic_smem : Bool → ℕ → ℕ → ℕ → State → Answer
cuda_occupancy_available_dynamic_smem size func num_blocks block_size s =
    if not size || func == 0
    then record_error error_invalid_value [] s
    else with_stats func s (λ st. elim (occ_available_dynamic_smem st num_blocks block_size) [
      | none ↦ record_error error_invalid_value [] s
      | some bytes ↦ succeed (bytes ∷ []) s
    ])

pub data CudaDeviceAttribute : Type 0 where
  max_threads_per_block max_shared_memory_per_block warp_size max_registers_per_block
        multiprocessor_count concurrent_kernels max_threads_per_multiprocessor
        compute_capability_major compute_capability_minor other_attribute :
      CudaDeviceAttribute

unfoldable pub cuda_attribute_value : CudaDeviceAttribute → Option ℕ
cuda_attribute_value max_threads_per_block = some 1024
cuda_attribute_value max_shared_memory_per_block = some 49152
cuda_attribute_value warp_size = some 32
cuda_attribute_value max_registers_per_block = some 65536
cuda_attribute_value multiprocessor_count = some 1
cuda_attribute_value concurrent_kernels = some 1
cuda_attribute_value max_threads_per_multiprocessor = some 1024
cuda_attribute_value compute_capability_major = some 7
cuda_attribute_value compute_capability_minor = some 5
cuda_attribute_value other_attribute = none

unfoldable pub cuda_device_get_attribute : Bool → CudaDeviceAttribute → Bool → State → Answer
cuda_device_get_attribute pi attr is_zero s =
    if not pi
    then record_error error_invalid_value [] s
    else if not is_zero
    then record_error error_invalid_device [] s
    else elim (cuda_attribute_value attr) [
      | none ↦ record_error error_invalid_value [] s
      | some v ↦ succeed (v ∷ []) s
    ]

-- The numbers of `cudaDeviceProp` that are not 0, in their order in the source.
unfoldable pub device_properties : World → List ℕ
device_properties world =
    world.host.phys_mem ∷ 49152 ∷ 65536 ∷ 65536 ∷ 65536 ∷ 65536 ∷ 32 ∷ 1024 ∷ 1024 ∷ 1024 ∷ 1024
    ∷ 64 ∷ 2147483647 ∷ 65535 ∷ 65535 ∷ 1 ∷ 1 ∷ 1 ∷ 7 ∷ 5 ∷ 3 ∷ 1 ∷ []

unfoldable pub cuda_get_device_properties : World → Bool → Bool → State → Answer
cuda_get_device_properties world prop is_zero s =
    if not prop || not is_zero
    then record_error (if not is_zero then error_invalid_device else error_invalid_value) [] s
    else succeed (device_properties world) s
