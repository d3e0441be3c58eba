-- ===== src/Driver/Calls/Errors.antt =====
-- What a call leaves that does not succeed.
use rouge_v.Base.{
  ℕ, Bool, true, false, List, [], ◌∷◌, Option, none, some, ◌≡◌, ◌≢◌, refl, arith, ◌⊎◌, inl, inr,
}
use rouge_v.Base.Bytes.{Memory}
use rouge_v.Ptx.Execute.{Dim3}
use rouge_v.Driver.{CuResult, success, Context, Reply, Host}
use rouge_v.Driver.Alloc.{
  cu_mem_alloc, cu_mem_free, cu_memcpy_htod, cu_memcpy_dtoh, cu_memcpy_dtod, cu_mem_get_info,
  cu_mem_host_alloc, cu_mem_free_host, cu_mem_host_get_device_pointer,
}
use rouge_v.Driver.Modules.{
  cu_module_load_data, cu_module_unload, cu_module_get_function, cu_module_get_global,
  cu_func_get_attribute,
}
use rouge_v.Driver.Launch.{cu_launch_kernel}
use rouge_v.Driver.Device.{
  cu_init, cu_device_get_count, cu_device_get, cu_ctx_create, cu_ctx_synchronize, cu_ctx_destroy,
  cu_ctx_set_current, cu_ctx_get_current, cu_ctx_get_device, cu_driver_get_version,
  cu_device_compute_capability, cu_device_get_attribute, cu_device_total_mem, cu_stream_create,
  cu_stream_destroy, cu_stream_idle, cu_occupancy_max_active_blocks,
  cu_occupancy_max_active_blocks_with_flags, cu_occupancy_max_potential_block_size,
}
use rouge_v.Driver.Calls
use rouge_v.Driver.Calls.{Call, Spelling, Real, emulate, driver}

abbrev pub is_launch : Call → Bool
is_launch (Calls.launch_kernel f grid block params) = true
is_launch _ = false

-- The context is as it was; a launch that fails may have left its writes in the memory.
abbrev pub Unchanged : Call → Context → Context → Type 0
Unchanged call c c' =
    (c' ≡ c) ⊎ ((is_launch call ≡ true) × ((m : Memory) × (c' ≡ record c { memory = m })))

launch_error :
    (host : Host) (f : ℕ) (grid block : Dim3) (params : Option (ℕ → ℕ)) (c : Context)
    → (cu_launch_kernel host f grid block params c).result ≢ success
    → (m : Memory) × ((cu_launch_kernel host f grid block params c).context
        ≡ record c { memory = m })
unfolding cu_launch_kernel
launch_error host f grid block params c h =
    ((cu_launch_kernel host f grid block params c).context.memory, ground arith)

emulate_error :
    (host : Host) (call : Call) (c : Context)
    → (emulate host call c).result ≢ success
    → Unchanged call c (emulate host call c).context
unfolding emulate cu_ctx_create cu_ctx_destroy cu_ctx_get_current cu_ctx_get_device
    cu_ctx_set_current cu_ctx_synchronize cu_device_compute_capability cu_device_get
    cu_device_get_attribute cu_device_get_count cu_device_total_mem cu_driver_get_version
    cu_func_get_attribute cu_init cu_mem_alloc cu_mem_free cu_mem_free_host cu_mem_get_info
    cu_mem_host_alloc cu_mem_host_get_device_pointer cu_memcpy_dtod cu_memcpy_dtoh cu_memcpy_htod
    cu_module_get_function cu_module_get_global cu_module_load_data cu_module_unload
    cu_occupancy_max_active_blocks cu_occupancy_max_active_blocks_with_flags
    cu_occupancy_max_potential_block_size cu_stream_create cu_stream_destroy cu_stream_idle
emulate_error host Calls.init c h = inl (ground arith)
emulate_error host (Calls.device_get_count a) c h = inl (ground arith)
emulate_error host (Calls.device_get a b) c h = inl (ground arith)
emulate_error host (Calls.ctx_create a) c h = inl (ground arith)
emulate_error host Calls.ctx_synchronize c h = inl (ground arith)
emulate_error host (Calls.ctx_destroy x) c h = inl (ground arith)
emulate_error host (Calls.ctx_set_current x) c h = inl (ground arith)
emulate_error host (Calls.ctx_get_current a) c h = inl (ground arith)
emulate_error host (Calls.ctx_get_device a) c h = inl (ground arith)
emulate_error host (Calls.driver_get_version a) c h = inl (ground arith)
emulate_error host (Calls.device_compute_capability a b z) c h = inl (ground arith)
emulate_error host (Calls.device_get_attribute a t z) c h = inl (ground arith)
emulate_error host (Calls.device_total_mem a z) c h = inl (ground arith)
emulate_error host (Calls.mem_alloc a n) c h = inl (ground arith)
emulate_error host (Calls.mem_free p) c h = inl (ground arith)
emulate_error host (Calls.memcpy_htod p a bs) c h = inl (ground arith)
emulate_error host (Calls.memcpy_dtoh a p n) c h = inl (ground arith)
emulate_error host (Calls.memcpy_dtod p q n) c h = inl (ground arith)
emulate_error host (Calls.mem_get_info a b) c h = inl (ground arith)
emulate_error host (Calls.mem_host_alloc a n) c h = inl (ground arith)
emulate_error host (Calls.mem_free_host p) c h = inl (ground arith)
emulate_error host (Calls.mem_host_get_device_pointer a p) c h = inl (ground arith)
emulate_error host (Calls.module_load_data a none) c h = inl (ground arith)
emulate_error host (Calls.module_load_data a (some t)) c h = inl (ground arith)
emulate_error host (Calls.module_unload k) c h = inl (ground arith)
emulate_error host (Calls.module_get_function a k none) c h = inl (ground arith)
emulate_error host (Calls.module_get_function a k (some t)) c h = inl (ground arith)
emulate_error host (Calls.module_get_global a b k none) c h = inl (ground arith)
emulate_error host (Calls.module_get_global a b k (some t)) c h = inl (ground arith)
emulate_error host (Calls.func_get_attribute a t f) c h = inl (ground arith)
emulate_error host (Calls.launch_kernel f g b ps) c h = inr (refl, launch_error host f g b ps c h)
emulate_error host (Calls.stream_create a) c h = inl (ground arith)
emulate_error host (Calls.stream_destroy x) c h = inl (ground arith)
emulate_error host Calls.stream_synchronize c h = inl (ground arith)
emulate_error host Calls.stream_query c h = inl (ground arith)
emulate_error host (Calls.occupancy_max_active_blocks a f n d) c h = inl (ground arith)
emulate_error host (Calls.occupancy_max_active_blocks_with_flags a f n d w) c h = inl (ground arith)
emulate_error host (Calls.occupancy_max_potential_block_size a b f cb d l) c h = inl (ground arith)

-- A call that does not answer success leaves the context as it was, whether the loaded library or
-- the emulation answers it and under every spelling; only a launch that fails may have left its
-- writes in the memory, and no table is changed by it.
pub driver_error :
    (real : Real) (host : Host) (spellings : List Spelling) (call : Call) (c : Context)
    → (driver real host spellings call c).result ≢ success
    → Unchanged call c (driver real host spellings call c).context
unfolding driver
driver_error real host [] call c h = answered (real [] call) h
  where
    answered :
        (o : Option (CuResult × List ℕ))
        → (elim o as (λ x. Reply) [
          | none ↦ emulate host call c
          | some (result, out) ↦ record { result = result; out = out; context = c }
        ]).result
          ≢ success
        → Unchanged call c
            (elim o as (λ x. Reply) [
              | none ↦ emulate host call c
              | some (result, out) ↦ record { result = result; out = out; context = c }
            ]).context
    answered none h = emulate_error host call c h
    answered (some (result, out)) h = inl refl
driver_error real host (s ∷ spellings) call c h =
    answered (real (s ∷ spellings) call) (driver_error real host spellings call c) h
  where
    answered :
        (o : Option (CuResult × List ℕ))
        → ((driver real host spellings call c).result ≢ success
            → Unchanged call c (driver real host spellings call c).context)
        → (elim o as (λ x. Reply) [
          | none ↦ driver real host spellings call c
          | some (result, out) ↦ record { result = result; out = out; context = c }
        ]).result
          ≢ success
        → Unchanged call c
            (elim o as (λ x. Reply) [
              | none ↦ driver real host spellings call c
              | some (result, out) ↦ record { result = result; out = out; context = c }
            ]).context
    answered none rest h = rest h
    answered (some (result, out)) rest h = inl refl
