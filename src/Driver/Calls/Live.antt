-- ===== src/Driver/Calls/Live.antt =====
-- The set of device allocations, against what the history of the calls says.
use rouge_v.Base.{
  ℕ, Bool, true, false, not, ◌||◌, List, [], ◌∷◌, Option, none, some, ◌≡◌, refl, arith, ◌==◌,
  if◌then◌else◌, ap, ◌∙◌,
}
use rouge_v.Base.Assoc.{member, member-remove}
use rouge_v.Driver.{
  CuResult, success, invalid_value, out_of_memory, not_initialized, invalid_handle, not_supported,
  Context, Reply, Host,
}
use rouge_v.Driver.Alloc.{
  add_to_set, cu_mem_alloc, cu_mem_free, cu_memcpy_htod, cu_memcpy_dtoh, cu_memcpy_dtod,
  cu_mem_get_info, cu_mem_host_alloc, cu_mem_free_host, cu_mem_host_get_device_pointer,
}
use rouge_v.Driver.Modules.{
  cu_module_load_data, cu_module_unload, cu_module_get_function, cu_module_get_global, back_global,
  cu_func_get_attribute,
}
use rouge_v.Driver.Launch.{cu_launch_kernel}
use rouge_v.Driver.Device.{
  cu_init, cu_device_get_count, cu_device_get, cu_ctx_create, cu_ctx_synchronize, cu_ctx_destroy,
  cu_ctx_set_current, cu_ctx_get_current, cu_ctx_get_device, cu_driver_get_version,
  cu_device_compute_capability, cu_device_get_attribute, cu_device_total_mem, cu_stream_create,
  cu_stream_destroy, cu_stream_idle, cu_occupancy_max_active_blocks,
  cu_occupancy_max_active_blocks_with_flags, cu_occupancy_max_potential_block_size,
}
use rouge_v.Driver.Calls
use rouge_v.Driver.Calls.{Call, Spelling, Real, emulate, driver}

abbrev pub is_success : CuResult → Bool
is_success success = true
is_success invalid_value = false
is_success out_of_memory = false
is_success not_initialized = false
is_success invalid_handle = false
is_success not_supported = false

abbrev pub allocates : Call → Bool
allocates (Calls.mem_alloc dptr size) = true
allocates _ = false

abbrev pub frees : Call → Option ℕ
frees (Calls.mem_free p) = some p
frees _ = none

-- A call with what it answered.
pub record Event : Type 0 where
  pub call : Call
  pub result : CuResult
  pub out : List ℕ

-- Which addresses are allocated behind an event, from those before it.
abbrev pub live_after : Event → (ℕ → Bool) → ℕ → Bool
live_after e live a =
    if not (is_success e.result)
    then live a
    else if allocates e.call
    then member a e.out || live a
    else elim (frees e.call) [ none ↦ live a | some p ↦ if p == a then false else live a ]

-- The allocated addresses of a history, the last event first.
abbrev pub live_in : List Event → ℕ → Bool
live_in [] a = false
live_in (e ∷ es) a = live_after e (live_in es) a

member-add_to_set : (p a : ℕ) (s : List ℕ) → member a (add_to_set p s) ≡ (p == a || member a s)
unfolding member
member-add_to_set p a s = ground arith

abbrev event_of : Call → Reply → Event
event_of call r = record { call = call; result = r.result; out = r.out }

-- The part of the context that the abstract view keeps.
emulate_live :
    (host : Host) (call : Call) (c : Context) (a : ℕ)
    → member a (emulate host call c).context.allocations
      ≡ live_after (event_of call (emulate host call c)) (λ x. member x c.allocations) a
unfolding emulate member back_global cu_ctx_create cu_ctx_destroy cu_ctx_get_current
    cu_ctx_get_device cu_ctx_set_current cu_ctx_synchronize cu_device_compute_capability
    cu_device_get cu_device_get_attribute cu_device_get_count cu_device_total_mem
    cu_driver_get_version cu_func_get_attribute cu_init cu_launch_kernel cu_mem_alloc cu_mem_free
    cu_mem_free_host cu_mem_get_info cu_mem_host_alloc cu_mem_host_get_device_pointer cu_memcpy_dtod
    cu_memcpy_dtoh cu_memcpy_htod cu_module_get_function cu_module_get_global cu_module_load_data
    cu_module_unload cu_occupancy_max_active_blocks cu_occupancy_max_active_blocks_with_flags
    cu_occupancy_max_potential_block_size cu_stream_create cu_stream_destroy cu_stream_idle
emulate_live host Calls.init c a = ground arith
emulate_live host (Calls.device_get_count w) c a = ground arith
emulate_live host (Calls.device_get w b) c a = ground arith
emulate_live host (Calls.ctx_create w) c a = ground arith
emulate_live host Calls.ctx_synchronize c a = ground arith
emulate_live host (Calls.ctx_destroy x) c a = ground arith
emulate_live host (Calls.ctx_set_current x) c a = ground arith
emulate_live host (Calls.ctx_get_current w) c a = ground arith
emulate_live host (Calls.ctx_get_device w) c a = ground arith
emulate_live host (Calls.driver_get_version w) c a = ground arith
emulate_live host (Calls.device_compute_capability w b z) c a = ground arith
emulate_live host (Calls.device_get_attribute w t z) c a = ground arith
emulate_live host (Calls.device_total_mem w z) c a = ground arith
emulate_live host (Calls.mem_alloc w n) c a = ground arith
emulate_live host (Calls.mem_free p) c a = ground (arith, member-remove p a c.allocations)
emulate_live host (Calls.memcpy_htod p w bs) c a = ground arith
emulate_live host (Calls.memcpy_dtoh w p n) c a = ground arith
emulate_live host (Calls.memcpy_dtod p q n) c a = ground arith
emulate_live host (Calls.mem_get_info w b) c a = ground arith
emulate_live host (Calls.mem_host_alloc w n) c a = ground arith
emulate_live host (Calls.mem_free_host p) c a = ground arith
emulate_live host (Calls.mem_host_get_device_pointer w p) c a = ground arith
emulate_live host (Calls.module_load_data w none) c a = ground arith
emulate_live host (Calls.module_load_data w (some t)) c a = ground arith
emulate_live host (Calls.module_unload k) c a = ground arith
emulate_live host (Calls.module_get_function w k none) c a = ground arith
emulate_live host (Calls.module_get_function w k (some t)) c a = ground arith
emulate_live host (Calls.module_get_global w b k none) c a = ground arith
emulate_live host (Calls.module_get_global w b k (some t)) c a = ground arith
emulate_live host (Calls.func_get_attribute w t f) c a = ground arith
emulate_live host (Calls.launch_kernel f g b ps) c a = ground arith
emulate_live host (Calls.stream_create w) c a = ground arith
emulate_live host (Calls.stream_destroy x) c a = ground arith
emulate_live host Calls.stream_synchronize c a = ground arith
emulate_live host Calls.stream_query c a = ground arith
emulate_live host (Calls.occupancy_max_active_blocks w f n d) c a = ground arith
emulate_live host (Calls.occupancy_max_active_blocks_with_flags w f n d v) c a = ground arith
emulate_live host (Calls.occupancy_max_potential_block_size w b f cb d l) c a = ground arith

-- Where the loaded library has none of the symbols, every spelling of a call is the emulation.
pub driver-emulate :
    (real : Real) (host : Host) (spellings : List Spelling) (call : Call) (c : Context)
    → ((s : List Spelling) (k : Call) → real s k ≡ none)
    → driver real host spellings call c ≡ emulate host call c
unfolding driver
driver-emulate real host [] call c absent = rw (absent [] call, driver) refl
driver-emulate real host (s ∷ spellings) call c absent =
    rw (absent (s ∷ spellings) call, driver) (driver-emulate real host spellings call c absent)

pub record Step : Type 0 where
  pub host : Host
  pub spellings : List Spelling
  pub made : Call

-- The history and the context of calls from a first context on, the last call first.
unfoldable pub run : Real → List Step → Context → List Event × Context
run real [] c = ([], c)
run real (s ∷ before) c =
    let (events, c') = run real before c in
    let r = driver real s.host s.spellings s.made c' in (event_of s.made r ∷ events, r.context)

run_live :
    (real : Real) (steps : List Step) (c : Context) (a : ℕ)
    → ((s : List Spelling) (k : Call) → real s k ≡ none)
    → ((x : ℕ) → member x c.allocations ≡ false)
    → member a (run real steps c).1.allocations ≡ live_in (run real steps c).0 a
unfolding run
run_live real [] c a absent empty = empty a
run_live real (s ∷ before) c a absent empty =
    let c' = (run real before c).1 in
    let same = driver-emulate real s.host s.spellings s.made c' absent in
    rw same (
      emulate_live s.host s.made c' a
      ∙ live_after_eq (event_of s.made (emulate s.host s.made c')) (λ x. member x c'.allocations)
          (live_in (run real before c).0) a (λ x. run_live real before c x absent empty))
  where
    live_after_eq :
        (e : Event) (live live' : ℕ → Bool) (x : ℕ)
        → ((y : ℕ) → live y ≡ live' y)
        → live_after e live x ≡ live_after e live' x
    live_after_eq e live live' x eq = ground (arith, eq x)

free_result :
    (host : Host) (p : ℕ) (c : Context)
    → (emulate host (Calls.mem_free p) c).result
      ≡ (if member p c.allocations then success else invalid_value)
unfolding emulate cu_mem_free
free_result host p c = ground arith

-- Behind any calls from a context with no allocation, in any spellings and with any answers of the
-- host, `cuMemFree` succeeds for the addresses that the history has allocated and not freed since,
-- and answers an invalid value for all others, a second free included.
pub cu_mem_free-live :
    (real : Real) (steps : List Step) (c : Context) (host : Host) (spellings : List Spelling)
    (p : ℕ)
    → ((s : List Spelling) (k : Call) → real s k ≡ none)
    → ((x : ℕ) → member x c.allocations ≡ false)
    → (driver real host spellings (Calls.mem_free p) (run real steps c).1).result
      ≡ (if live_in (run real steps c).0 p then success else invalid_value)
cu_mem_free-live real steps c host spellings p absent empty =
    let c' = (run real steps c).1 in
    rw (driver-emulate real host spellings (Calls.mem_free p) c' absent) (
      free_result host p c'
      ∙ ap (λ b. if b then success else invalid_value) (run_live real steps c p absent empty))
