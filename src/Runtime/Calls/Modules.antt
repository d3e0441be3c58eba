-- ===== src/Runtime/Calls/Modules.antt =====
-- The calls that leave the modules of the runtime alone.
use rouge_v.Base.{Bool, true, false, none, some, ◌≡◌, refl, arith}
use rouge_v.Runtime.{State, World}
use rouge_v.Runtime.Memory.{
  cuda_malloc, cuda_free, cuda_memcpy, cuda_memset, cuda_malloc_host, cuda_free_host, cuda_idle,
  cuda_get_last_error, cuda_peek_at_last_error, cuda_get_device_count, cuda_stream_create,
  cuda_set_device, cuda_get_device,
}
use rouge_v.Runtime.Device.{
  cuda_func_get_attributes, cuda_occupancy_max_active_blocks,
  cuda_occupancy_max_active_blocks_with_flags, cuda_occupancy_max_potential_block_size,
  cuda_occupancy_available_dynamic_smem, cuda_device_get_attribute, cuda_get_device_properties,
}
use rouge_v.Runtime.Register.{
  cuda_register_function, cuda_unregister_function, cuda_register_fat_binary,
  cuda_push_call_configuration, cuda_pop_call_configuration,
}
use rouge_v.Runtime.Calls
use rouge_v.Runtime.Calls.{RuntimeCall, emulate}

unfoldable pub loads : RuntimeCall → Bool
loads (Calls.launch_kernel stub grid block args shared_mem) = true
loads (Calls.register_fat_binary handle) = true
loads _ = false

pub emulate-modules :
    (world : World) (call : RuntimeCall) (s : State)
    → loads call ≡ false
    → (emulate world call s).state.runtime_modules ≡ s.runtime_modules
unfolding emulate loads cuda_malloc cuda_free cuda_memcpy cuda_memset cuda_malloc_host
    cuda_free_host cuda_idle cuda_get_last_error cuda_peek_at_last_error cuda_get_device_count
    cuda_stream_create cuda_set_device cuda_get_device cuda_func_get_attributes
    cuda_occupancy_max_active_blocks cuda_occupancy_max_active_blocks_with_flags
    cuda_occupancy_max_potential_block_size cuda_occupancy_available_dynamic_smem
    cuda_device_get_attribute cuda_get_device_properties cuda_register_function
    cuda_unregister_function cuda_register_fat_binary cuda_push_call_configuration
    cuda_pop_call_configuration
emulate-modules world (Calls.malloc a n) s quiet = ground arith
emulate-modules world (Calls.free p) s quiet = ground arith
emulate-modules world (Calls.memcpy d p n) s quiet = ground arith
emulate-modules world Calls.device_synchronize s quiet = refl
emulate-modules world Calls.get_last_error s quiet = refl
emulate-modules world (Calls.get_device_count a) s quiet = ground arith
emulate-modules world (Calls.stream_create a) s quiet = ground arith
emulate-modules world (Calls.stream_synchronize x) s quiet = refl
emulate-modules world (Calls.stream_destroy x) s quiet = refl
emulate-modules world (Calls.set_device z) s quiet = ground arith
emulate-modules world (Calls.get_device a) s quiet = ground arith
emulate-modules world Calls.device_reset s quiet = refl
emulate-modules world (Calls.get_device_properties a z) s quiet = ground arith
emulate-modules world Calls.peek_at_last_error s quiet = refl
emulate-modules world (Calls.malloc_host a n) s quiet = ground arith
emulate-modules world (Calls.free_host p) s quiet = refl
emulate-modules world (Calls.memset p v n) s quiet = ground arith
emulate-modules world (Calls.func_get_attributes a f) s quiet = ground arith
emulate-modules world (Calls.occupancy_max_active_blocks a f n d) s quiet = ground arith
emulate-modules world (Calls.occupancy_max_active_blocks_with_flags a f n d w) s quiet =
    ground arith
emulate-modules world (Calls.occupancy_max_potential_block_size a b f c d) s quiet = ground arith
emulate-modules world (Calls.occupancy_available_dynamic_smem a f b n) s quiet = ground arith
emulate-modules world (Calls.device_get_attribute a t z) s quiet = ground arith
emulate-modules world (Calls.launch_kernel stub g b args m) s quiet = absurd (cc)
emulate-modules world (Calls.register_fat_binary h) s quiet = absurd (cc)
emulate-modules world (Calls.register_function x none) s quiet = refl
emulate-modules world (Calls.register_function x (some n)) s quiet = ground arith
emulate-modules world (Calls.unregister_function f) s quiet = refl
emulate-modules world (Calls.push_call_configuration g) s quiet = refl
emulate-modules world Calls.pop_call_configuration s quiet = ground arith
