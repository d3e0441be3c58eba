-- ===== src/Driver/Calls/Examples.antt =====
-- The driver API on a machine whose allocators answer one address.
use Prim.Native.String.{String}
use rouge_v.Base.{
  ℕ, zero, suc, ◌==◌, ◌<◌, ◌≡◌, ◌≢◌, true, false, List, [], ◌∷◌, none, some, refl, arith, get_elem?,
  if◌then◌else◌,
}
use rouge_v.Base.Text.{same_name}
use rouge_v.Base.Assoc.{lookup, lookup_name, member, remove}
use rouge_v.Ptx.Program.{PtxProgram, PtxFunction, PtxGlobalVar}
use rouge_v.Ptx.Params.{parse_param_entry, parse_param_entries, param_words, param_width}
use rouge_v.Driver.{Context, Host, success, invalid_value, global_storage_key}
use rouge_v.Driver.Alloc.{cu_mem_alloc, cu_mem_free}
use rouge_v.Driver.Modules.{cu_module_get_global, cu_module_unload, global_bytes}
use rouge_v.Driver.Modules.Globals.{global_storage_key_ne}
use rouge_v.Driver.Modules.Laws.{cu_module_unload_lem, cu_module_get_global_twice}
use rouge_v.Driver.Launch.{fill_bases}
use rouge_v.Driver.Launch.Bases.{fill_bases-cu_module_get_global}
use rouge_v.Driver.Calls
use rouge_v.Driver.Calls.{Call, Spelling, Real, emulate, driver}
use rouge_v.Driver.Calls.Errors.{Unchanged, driver_error}
use rouge_v.Driver.Calls.Live.{Step, run, live_in, cu_mem_free-live}

abbrev entry : PtxFunction
entry = record {
  function_name = "scale";
  params = [];
  body = [];
  labels = [];
  reg_bits = [];
  shared_vars = [];
  shared_size = 0;
  local_vars = [];
  local_size = 0;
  params_blob_size = 0;
}

abbrev table : PtxGlobalVar
table = record {
  global_name = "table";
  global_align = 4;
  global_elem_bytes = 4;
  global_count = 16;
  is_const = false;
}

abbrev pub prog : PtxProgram
prog = record {
  functions = entry ∷ [];
  function_index = ("scale", 0) ∷ [];
  globals = table ∷ [];
  global_index = ("table", 0) ∷ [];
  target_sm = 75;
}

abbrev pub host : Host
host = record {
  malloc = λ n. some 4096;
  new = 8192;
  phys_mem = 65536;
  the_context = 16;
  parse_ptx = λ t. some prog;
  execute_kernel = λ p i blob grid block bases m. (true, m);
}

abbrev pub start : Context
start = record {
  allocations = [];
  modules = (8192, prog) ∷ [];
  funcs = [];
  global_storage = [];
  current = 0;
  memory = λ a. 0;
  beyond_rows = λ i r. false;
}

abbrev pub no_library : Real
no_library s k = none

abbrev step : Call → Step
step call = record { host = host; spellings = Calls.v2 ∷ []; made = call }

-- An allocation, its release, and a second release.
abbrev double_free : List Step
double_free = step (Calls.mem_free 4096) ∷ step (Calls.mem_alloc true 64) ∷ []

double_free_fails : live_in (run no_library double_free start).0 4096 ≡ false
unfolding run driver emulate cu_mem_alloc cu_mem_free member remove
double_free_fails = refl

nothing_allocated : (x : ℕ) → member x start.allocations ≡ false
unfolding member
nothing_allocated x = refl

cu_mem_free-live_example :
    (driver no_library host [] (Calls.mem_free 4096) (run no_library double_free start).1).result
    ≡ (if live_in (run no_library double_free start).0 4096 then success else invalid_value)
cu_mem_free-live_example =
    cu_mem_free-live no_library double_free start host [] 4096 (λ s k. refl) nothing_allocated

free_refused : (driver no_library host (Calls.v2 ∷ []) (Calls.mem_free 5) start).result ≢ success
unfolding driver emulate cu_mem_free member
free_refused = λ h. ground arith

driver_error_example :
    Unchanged
      (Calls.mem_free 5)
      start
      (driver no_library host (Calls.v2 ∷ []) (Calls.mem_free 5) start).context
driver_error_example =
    driver_error no_library host (Calls.v2 ∷ []) (Calls.mem_free 5) start free_refused

loaded : lookup 8192 start.modules ≡ some prog
unfolding lookup
loaded = refl

table_named : lookup_name "table" prog.global_index ≡ some 0
unfolding lookup_name
table_named = refl

cu_module_unload_lem_example :
    ((cu_module_unload 8192 start).result ≡ success)
    × ((k : ℕ)
        → lookup k (cu_module_unload 8192 start).context.modules
          ≡ (if 8192 == k then none else lookup k start.modules))
    × ((i : ℕ)
        → i < 1
        → lookup (global_storage_key 8192 i) (cu_module_unload 8192 start).context.global_storage
          ≡ none)
    × ((q : ℕ)
        → ((i : ℕ) → i < 1 → global_storage_key 8192 i ≢ q)
        → lookup q (cu_module_unload 8192 start).context.global_storage
          ≡ lookup q start.global_storage)
cu_module_unload_lem_example = cu_module_unload_lem 8192 prog start loaded

global_storage_key_ne_example : global_storage_key 8192 0 ≢ global_storage_key 8192 1
global_storage_key_ne_example =
    global_storage_key_ne 8192 0 1 (omega arith) (omega arith) (omega arith) (omega arith)

cu_module_get_global_twice_example :
    ((cu_module_get_global host true true 8192
        (some "table")
        (cu_module_get_global host true true 8192 (some "table") start).context).out
      ≡ (cu_module_get_global host true true 8192 (some "table") start).out)
    × ((cu_module_get_global host true true 8192
          (some "table")
          (cu_module_get_global host true true 8192 (some "table") start).context).context.memory
        ≡ (cu_module_get_global host true true 8192 (some "table") start).context.memory)
cu_module_get_global_twice_example =
    cu_module_get_global_twice host host true 8192 0 "table" prog table start loaded table_named
      refl

table_bytes : global_bytes table ≢ 0
unfolding global_bytes
table_bytes = omega arith

only_table :
    (j : ℕ) (g : PtxGlobalVar)
    → get_elem? prog.globals j ≡ some g
    → j ≢ 0
    → same_name g.global_name "table" ≡ false
only_table zero g found apart = absurd (apart refl)
only_table (suc j) g found apart = absurd (cc)

fill_bases-cu_module_get_global_example :
    (p : ℕ) × ((cu_module_get_global host true false 8192 (some "table") start).out ≡ p ∷ [])
    × (lookup_name "table" (
          fill_bases 8192
            (cu_module_get_global host true false 8192 (some "table") start).context.global_storage
            0
            prog.globals
            [])
        ≡ some p)
fill_bases-cu_module_get_global_example =
    fill_bases-cu_module_get_global host 8192 0 prog table start loaded table_named refl table_bytes
      only_table

abbrev signature : List (List String)
signature = (".param" ∷ ".u32" ∷ "n" ∷ []) ∷ (".param" ∷ ".u64" ∷ "out" ∷ []) ∷ []

abbrev scale : PtxFunction
scale = record entry {
  params =
      record { param_name = "n"; width = 4; index = 0; param_offset = 0 }
      ∷ record { param_name = "out"; width = 8; index = 1; param_offset = 4 }
      ∷ [];
  params_blob_size = 12;
}

scale_parsed : parse_param_entries signature entry ≡ some scale
unfolding parse_param_entries parse_param_entry param_words param_width
scale_parsed = refl
