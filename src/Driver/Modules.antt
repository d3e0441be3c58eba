-- ===== src/Driver/Modules.antt =====
-- Modules, their functions and their global variables.
pub mod Globals
pub mod Laws
use Prim.Native.String.{String}
use rouge_v.Base.{
  ℕ, zero, suc, ◌+◌, ◌*◌, Bool, true, false, not, ◌||◌, List, [], ◌∷◌, ◌++◌, Option, none, some,
  ◌==◌, ltb, if◌then◌else◌, length, get_elem?,
}
use rouge_v.Base.Assoc.{lookup, insert, erase, lookup_name}
use rouge_v.Base.Bytes.{Memory, write_bytes, zero_bytes}
use rouge_v.Ptx.Layout.{is_positive}
use rouge_v.Ptx.Program.{PtxProgram, PtxGlobalVar}
use rouge_v.Occupancy.Liveness.{kernel_stats}
use rouge_v.Driver.{
  CuResult, success, invalid_value, invalid_handle, not_supported, Context, FuncInfo, Storage,
  Reply, fail, ok, Host, global_storage_key,
}

-- `image` is the text behind the pointer; the program gets the address that `new` answers.
unfoldable pub cu_module_load_data : Host → Bool → Option String → Context → Reply
cu_module_load_data host mod_out none c = fail invalid_value c
cu_module_load_data host mod_out (some image) c =
    if not mod_out then fail invalid_value c else elim (host.parse_ptx image) [
      | none ↦ fail invalid_value c
      | some prog ↦ ok (host.new ∷ []) (record c { modules = insert host.new prog c.modules })
    ]

-- The loop of `cuModuleUnload` over the globals from `i` on.
unfoldable pub erase_globals : ℕ → ℕ → ℕ → List (ℕ × Storage) → List (ℕ × Storage)
erase_globals key i zero s = s
erase_globals key i (suc left) s =
    erase_globals key (i + 1) left (erase (global_storage_key key i) s)

unfoldable pub cu_module_unload : ℕ → Context → Reply
cu_module_unload key c = elim (lookup key c.modules) [
  | none ↦ fail invalid_value c
  | some prog ↦ ok [] (record c {
    global_storage = erase_globals key 0 (length prog.globals) c.global_storage;
    modules = erase key c.modules;
  })
]

unfoldable pub cu_module_get_function : Host → Bool → ℕ → Option String → Context → Reply
cu_module_get_function host hfunc hmod none c = fail invalid_value c
cu_module_get_function host hfunc hmod (some name) c =
    if not hfunc || hmod == 0 then fail invalid_value c else elim (lookup hmod c.modules) [
      | none ↦ fail invalid_handle c
      | some prog ↦ elim (lookup_name name prog.function_index) [
        | none ↦ fail invalid_value c
        | some index ↦ ok (host.new ∷ []) (record c {
          funcs = insert host.new (record { module_key = hmod; fn_index = index }) c.funcs;
        })
      ]
    ]

unfoldable pub global_bytes : PtxGlobalVar → ℕ
global_bytes gv =
    gv.global_elem_bytes * (if is_positive gv.global_count then gv.global_count else 1)

abbrev pub size_of : Option Storage → ℕ
size_of none = 0
size_of (some s) = s.size

abbrev pub base_of : Option Storage → ℕ
base_of none = 0
base_of (some s) = s.base

-- `store.assign(nbytes, 0)` where the size differs; the vector then stands where `new` answers.
unfoldable pub back_global : Host → ℕ → ℕ → Context → Context
back_global host key nbytes c =
    let found = lookup key c.global_storage in
    if size_of found == nbytes
    then record c {
      global_storage = insert key (record { base = base_of found; size = nbytes }) c.global_storage;
    }
    else record c {
      global_storage = insert key (record { base = host.new; size = nbytes }) c.global_storage;
      memory = write_bytes c.memory host.new (zero_bytes nbytes);
    }

unfoldable pub cu_module_get_global : Host → Bool → Bool → ℕ → Option String → Context → Reply
cu_module_get_global host dptr bytes hmod none c = fail invalid_value c
cu_module_get_global host dptr bytes hmod (some name) c =
    if not dptr then fail invalid_value c else elim (lookup hmod c.modules) [
      | none ↦ fail invalid_handle c
      | some prog ↦ elim (lookup_name name prog.global_index) [
        | none ↦ fail invalid_value c
        | some index ↦ elim (get_elem? prog.globals index) [
          | none ↦ fail invalid_value c
          | some gv ↦
              let key = global_storage_key hmod index in
              let c' = back_global host key (global_bytes gv) c in
              ok
                (base_of (lookup key c'.global_storage)
                  ∷ (if bytes then global_bytes gv ∷ [] else []))
                c'
        ]
      ]
    ]

pub data FunctionAttribute : Type 0 where
  max_threads_per_block shared_size_bytes num_regs ptx_version other_attribute : FunctionAttribute

unfoldable pub cu_func_get_attribute : Bool → FunctionAttribute → ℕ → Context → Reply
cu_func_get_attribute pi attrib hfunc c =
    if not pi || hfunc == 0 then fail invalid_value c else elim (lookup hfunc c.funcs) [
      | none ↦ fail invalid_handle c
      | some info ↦ elim (lookup info.module_key c.modules) [
        | none ↦ fail invalid_handle c
        | some prog ↦ elim (kernel_stats c.beyond_rows prog info.fn_index) [
          | none ↦ fail invalid_value c
          | some st ↦ elim attrib [
            | max_threads_per_block ↦ ok (1024 ∷ []) c
            | shared_size_bytes ↦ ok (st.static_smem ∷ []) c
            | num_regs ↦ ok (st.num_regs ∷ []) c
            | ptx_version ↦ ok (st.target_sm ∷ []) c
            | other_attribute ↦ fail not_supported c
          ]
        ]
      ]
    ]
