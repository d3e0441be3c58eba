-- ===== src/Runtime/Calls/Configs.antt =====
-- The stack of launch configurations.
use rouge_v.Base.{Bool, true, false, List, [], ◌∷◌, ◌++◌, none, some, ◌≡◌, refl, ap, ◌∙◌, arith}
use rouge_v.Runtime.{cuda_success, CallConfig, State, World}
use rouge_v.Runtime.Memory.{
  cuda_malloc, cuda_free, cuda_memcpy, cuda_memset, cuda_malloc_host, cuda_free_host, cuda_idle,
  cuda_get_last_error, cuda_peek_at_last_error, cuda_get_device_count, cuda_stream_create,
  cuda_set_device, cuda_get_device,
}
use rouge_v.Runtime.Device.{
  cuda_func_get_attributes, cuda_occupancy_max_active_blocks,
  cuda_occupancy_max_active_blocks_with_flags, cuda_occupancy_max_potential_block_size,
  cuda_occupancy_available_dynamic_smem, cuda_device_get_attribute, cuda_get_device_properties,
}
use rouge_v.Runtime.Register.{
  cuda_register_function, cuda_unregister_function, cuda_register_fat_binary,
  cuda_push_call_configuration, cuda_pop_call_configuration,
}
use rouge_v.Runtime.Calls.Kept.{launch_registered-Kept}
use rouge_v.Runtime.Calls
use rouge_v.Runtime.Calls.{RuntimeCall, emulate}

unfoldable pub touches : RuntimeCall → Bool
touches (Calls.push_call_configuration config) = true
touches Calls.pop_call_configuration = true
touches _ = false

emulate_config :
    (world : World) (call : RuntimeCall) (s : State)
    → touches call ≡ false
    → (emulate world call s).state.config_stack ≡ s.config_stack
unfolding emulate touches cuda_malloc cuda_free cuda_memcpy cuda_memset cuda_malloc_host
    cuda_free_host cuda_idle cuda_get_last_error cuda_peek_at_last_error cuda_get_device_count
    cuda_stream_create cuda_set_device cuda_get_device cuda_func_get_attributes
    cuda_occupancy_max_active_blocks cuda_occupancy_max_active_blocks_with_flags
    cuda_occupancy_max_potential_block_size cuda_occupancy_available_dynamic_smem
    cuda_device_get_attribute cuda_get_device_properties cuda_register_function
    cuda_unregister_function cuda_register_fat_binary cuda_push_call_configuration
    cuda_pop_call_configuration
emulate_config world (Calls.malloc a n) s quiet = ground arith
emulate_config world (Calls.free p) s quiet = ground arith
emulate_config world (Calls.memcpy d p n) s quiet = ground arith
emulate_config world Calls.device_synchronize s quiet = refl
emulate_config world Calls.get_last_error s quiet = refl
emulate_config world (Calls.get_device_count a) s quiet = ground arith
emulate_config world (Calls.stream_create a) s quiet = ground arith
emulate_config world (Calls.stream_synchronize x) s quiet = refl
emulate_config world (Calls.stream_destroy x) s quiet = refl
emulate_config world (Calls.set_device z) s quiet = ground arith
emulate_config world (Calls.get_device a) s quiet = ground arith
emulate_config world Calls.device_reset s quiet = refl
emulate_config world (Calls.get_device_properties a z) s quiet = ground arith
emulate_config world Calls.peek_at_last_error s quiet = refl
emulate_config world (Calls.malloc_host a n) s quiet = ground arith
emulate_config world (Calls.free_host p) s quiet = refl
emulate_config world (Calls.memset p v n) s quiet = ground arith
emulate_config world (Calls.func_get_attributes a f) s quiet = ground arith
emulate_config world (Calls.occupancy_max_active_blocks a f n d) s quiet = ground arith
emulate_config world (Calls.occupancy_max_active_blocks_with_flags a f n d w) s quiet = ground arith
emulate_config world (Calls.occupancy_max_potential_block_size a b f c d) s quiet = ground arith
emulate_config world (Calls.occupancy_available_dynamic_smem a f b n) s quiet = ground arith
emulate_config world (Calls.device_get_attribute a t z) s quiet = ground arith
emulate_config world (Calls.launch_kernel stub g b args m) s quiet =
    (launch_registered-Kept world stub g b args m s).1
emulate_config world (Calls.register_fat_binary h) s quiet = ground arith
emulate_config world (Calls.register_function x none) s quiet = refl
emulate_config world (Calls.register_function x (some n)) s quiet = ground arith
emulate_config world (Calls.unregister_function f) s quiet = refl
emulate_config world (Calls.push_call_configuration g) s quiet = absurd (cc)
emulate_config world Calls.pop_call_configuration s quiet = absurd (cc)

-- The state behind calls in their order, each in a world of its own.
unfoldable pub run_calls : List (World × RuntimeCall) → State → State
run_calls [] s = s
run_calls ((world, call) ∷ calls) s = run_calls calls (emulate world call s).state

run_calls-append :
    (before after : List (World × RuntimeCall)) (s : State)
    → run_calls (before ++ after) s ≡ run_calls after (run_calls before s)
unfolding run_calls
run_calls-append [] after s = refl
run_calls-append ((world, call) ∷ before) after s =
    run_calls-append before after (emulate world call s).state

-- Calls in which each configuration that is pushed is popped, in a nest, among any others.
pub data Balanced : List (World × RuntimeCall) → Type 0 where
  empty : Balanced []
  other :
      (world : World) (call : RuntimeCall) {calls : List (World × RuntimeCall)}
      → touches call ≡ false
      → Balanced calls
      → Balanced ((world, call) ∷ calls)
  nested :
      (world world' : World) (config : CallConfig) (inner after : List (World × RuntimeCall))
      {calls : List (World × RuntimeCall)}
      → calls
        ≡ (world, Calls.push_call_configuration config)
          ∷ (inner ++ ((world', Calls.pop_call_configuration) ∷ after))
      → Balanced inner
      → Balanced after
      → Balanced calls

pop_lem :
    (config : CallConfig) (below : List CallConfig) (s : State)
    → s.config_stack ≡ config ∷ below
    → (let (code, popped, s') = cuda_pop_call_configuration s in
        (code ≡ cuda_success) × (popped ≡ some config) × (s'.config_stack ≡ below))
unfolding cuda_pop_call_configuration
pop_lem config below s e = ground arith

emulate_pop :
    (world : World) (config : CallConfig) (below : List CallConfig) (s : State)
    → s.config_stack ≡ config ∷ below
    → (emulate world Calls.pop_call_configuration s).state.config_stack ≡ below
unfolding emulate
emulate_pop world config below s e = (pop_lem config below s e).2

emulate_push :
    (world : World) (config : CallConfig) (s : State)
    → (emulate world (Calls.push_call_configuration config) s).state.config_stack
      ≡ config ∷ s.config_stack
unfolding emulate cuda_push_call_configuration
emulate_push world config s = refl

Balanced-stack :
    {calls : List (World × RuntimeCall)} (s : State)
    → Balanced calls
    → (run_calls calls s).config_stack ≡ s.config_stack
unfolding run_calls
Balanced-stack s empty = refl
Balanced-stack s (other world call quiet rest) =
    Balanced-stack (emulate world call s).state rest ∙ emulate_config world call s quiet
Balanced-stack s (nested world world' config inner after {calls} e inside behind) =
    let s₁ = (emulate world (Calls.push_call_configuration config) s).state in
    let s₂ = run_calls inner s₁ in
    let s₃ = (emulate world' Calls.pop_call_configuration s₂).state in
    let in_nest = Balanced-stack s₁ inside ∙ emulate_push world config s in
    let popped = emulate_pop world' config s.config_stack s₂ in_nest in
    let whole : run_calls calls s ≡ run_calls after s₃ =
      ap (λ cs. run_calls cs s) e
      ∙ run_calls-append inner ((world', Calls.pop_call_configuration) ∷ after) s₁ in
    ap (λ (t : State). t.config_stack) whole ∙ (Balanced-stack s₃ behind ∙ popped)

-- A configuration that is pushed comes back from the pop behind any balanced calls, and the stack
-- is then what it was.
pub pop_call_configuration-push :
    (config : CallConfig) (calls : List (World × RuntimeCall)) (s : State)
    → Balanced calls
    → (let (code, popped, s') =
          cuda_pop_call_configuration (run_calls calls (cuda_push_call_configuration config s).1) in
        (code ≡ cuda_success) × (popped ≡ some config) × (s'.config_stack ≡ s.config_stack))
unfolding cuda_push_call_configuration
pop_call_configuration-push config calls s balanced =
    let pushed = record s { config_stack = config ∷ s.config_stack } in
    pop_lem config s.config_stack (run_calls calls pushed) (Balanced-stack pushed balanced)
