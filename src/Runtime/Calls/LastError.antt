-- ===== src/Runtime/Calls/LastError.antt =====
-- The last error of the thread against the history of the calls.
use rouge_v.Base.{List, [], ◌∷◌, none, some, ◌≡◌, refl, ap, ◌∙◌, arith}
use rouge_v.Runtime.{CudaError, cuda_success, State, World}
use rouge_v.Runtime.Memory.{
  cuda_malloc, cuda_free, cuda_memcpy, cuda_memset, cuda_malloc_host, cuda_free_host, cuda_idle,
  cuda_get_last_error, cuda_peek_at_last_error, cuda_get_device_count, cuda_stream_create,
  cuda_set_device, cuda_get_device,
}
use rouge_v.Runtime.Device.{
  cuda_func_get_attributes, cuda_occupancy_max_active_blocks,
  cuda_occupancy_max_active_blocks_with_flags, cuda_occupancy_max_potential_block_size,
  cuda_occupancy_available_dynamic_smem, cuda_device_get_attribute, cuda_get_device_properties,
}
use rouge_v.Runtime.Register.{
  cuda_register_function, cuda_unregister_function, cuda_register_fat_binary,
  cuda_push_call_configuration, cuda_pop_call_configuration,
}
use rouge_v.Runtime.Calls.Kept.{launch_registered-Kept}
use rouge_v.Runtime.Calls
use rouge_v.Runtime.Calls.{RuntimeCall, emulate}

-- What a call does to the last error: it leaves its own code, or it leaves success, or nothing.
pub data Treatment : Type 0 where
  records clears keeps : Treatment

pub treatment : RuntimeCall → Treatment
treatment Calls.get_last_error = clears
treatment Calls.peek_at_last_error = keeps
treatment (Calls.launch_kernel stub grid block args shared_mem) = keeps
treatment (Calls.register_fat_binary handle) = keeps
treatment (Calls.register_function stub name) = keeps
treatment (Calls.unregister_function func) = keeps
treatment (Calls.push_call_configuration config) = keeps
treatment Calls.pop_call_configuration = keeps
treatment _ = records

abbrev pub error_after : Treatment → CudaError → CudaError → CudaError
error_after records code before = code
error_after clears code before = cuda_success
error_after keeps code before = before

emulate_last_error :
    (world : World) (call : RuntimeCall) (s : State)
    → (emulate world call s).state.last_error
      ≡ error_after (treatment call) (emulate world call s).code s.last_error
unfolding emulate treatment cuda_malloc cuda_free cuda_memcpy cuda_memset cuda_malloc_host
    cuda_free_host cuda_idle cuda_get_last_error cuda_peek_at_last_error cuda_get_device_count
    cuda_stream_create cuda_set_device cuda_get_device cuda_func_get_attributes
    cuda_occupancy_max_active_blocks cuda_occupancy_max_active_blocks_with_flags
    cuda_occupancy_max_potential_block_size cuda_occupancy_available_dynamic_smem
    cuda_device_get_attribute cuda_get_device_properties cuda_register_function
    cuda_unregister_function cuda_register_fat_binary cuda_push_call_configuration
    cuda_pop_call_configuration
emulate_last_error world (Calls.malloc a n) s = ground arith
emulate_last_error world (Calls.free p) s = ground arith
emulate_last_error world (Calls.memcpy d p n) s = ground arith
emulate_last_error world Calls.device_synchronize s = refl
emulate_last_error world Calls.get_last_error s = refl
emulate_last_error world (Calls.get_device_count a) s = ground arith
emulate_last_error world (Calls.stream_create a) s = ground arith
emulate_last_error world (Calls.stream_synchronize x) s = refl
emulate_last_error world (Calls.stream_destroy x) s = refl
emulate_last_error world (Calls.set_device z) s = ground arith
emulate_last_error world (Calls.get_device a) s = ground arith
emulate_last_error world Calls.device_reset s = refl
emulate_last_error world (Calls.get_device_properties a z) s = ground arith
emulate_last_error world Calls.peek_at_last_error s = refl
emulate_last_error world (Calls.malloc_host a n) s = ground arith
emulate_last_error world (Calls.free_host p) s = refl
emulate_last_error world (Calls.memset p v n) s = ground arith
emulate_last_error world (Calls.func_get_attributes a f) s = ground arith
emulate_last_error world (Calls.occupancy_max_active_blocks a f n d) s = ground arith
emulate_last_error world (Calls.occupancy_max_active_blocks_with_flags a f n d w) s = ground arith
emulate_last_error world (Calls.occupancy_max_potential_block_size a b f c d) s = ground arith
emulate_last_error world (Calls.occupancy_available_dynamic_smem a f b n) s = ground arith
emulate_last_error world (Calls.device_get_attribute a t z) s = ground arith
emulate_last_error world (Calls.launch_kernel stub g b args m) s =
    (launch_registered-Kept world stub g b args m s).0
emulate_last_error world (Calls.register_fat_binary h) s = ground arith
emulate_last_error world (Calls.register_function x none) s = refl
emulate_last_error world (Calls.register_function x (some n)) s = ground arith
emulate_last_error world (Calls.unregister_function f) s = refl
emulate_last_error world (Calls.push_call_configuration g) s = refl
emulate_last_error world Calls.pop_call_configuration s = ground arith

-- A call with the code that it answered.
pub record Answered : Type 0 where
  pub call : RuntimeCall
  pub code : CudaError

-- The error that a history leaves, the last call first, from the one that it began with: the code
-- of the last call that records it, unless it was taken since.
abbrev pub pending : CudaError → List Answered → CudaError
pending before [] = before
pending before (a ∷ rest) = error_after (treatment a.call) a.code (pending before rest)

-- The history and the state of calls that the emulation answers, each in a world of its own.
unfoldable pub run : List (World × RuntimeCall) → State → List Answered × State
run [] s = ([], s)
run ((world, call) ∷ before) s =
    let (history, s') = run before s in
    let a = emulate world call s' in (record { call = call; code = a.code } ∷ history, a.state)

run-last_error :
    (calls : List (World × RuntimeCall)) (s : State)
    → (run calls s).1.last_error ≡ pending s.last_error (run calls s).0
unfolding run
run-last_error [] s = refl
run-last_error ((world, call) ∷ before) s =
    emulate_last_error world call (run before s).1
    ∙ ap (λ e. error_after (treatment call) (emulate world call (run before s).1).code e)
        (run-last_error before s)

-- Behind any calls, cudaPeekAtLastError and cudaGetLastError answer the code of the last call that
-- records its error and was not followed by a cudaGetLastError; the latter leaves success, the
-- former the error. A launch records nothing.
pub last_error_pending :
    (calls : List (World × RuntimeCall)) (s : State) (world : World)
    → ((emulate world Calls.peek_at_last_error (run calls s).1).code
        ≡ pending s.last_error (run calls s).0)
      × ((emulate world Calls.get_last_error (run calls s).1).code
          ≡ pending s.last_error (run calls s).0)
      × ((emulate world Calls.peek_at_last_error
            (emulate world Calls.get_last_error (run calls s).1).state).code
          ≡ cuda_success)
unfolding emulate cuda_get_last_error cuda_peek_at_last_error
last_error_pending calls s world = (run-last_error calls s, run-last_error calls s, refl)
