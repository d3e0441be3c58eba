-- ===== src/Driver/Modules/Laws.antt =====
-- What the calls on modules promise one another.
use Prim.Native.String.{String}
use rouge_v.Base.{
  ℕ, ◌<◌, ◌≡◌, ◌≢◌, refl, arith, Bool, true, [], ◌∷◌, none, some, ◌==◌, if◌then◌else◌, length,
  get_elem?, ap, ◌∙◌,
}
use rouge_v.Base.Assoc.{lookup, lookup_name, lookup-erase}
use rouge_v.Ptx.Program.{PtxProgram, PtxGlobalVar}
use rouge_v.Driver.{Context, Host, ok, success, global_storage_key}
use rouge_v.Driver.Modules.{
  cu_module_unload, global_bytes, back_global, cu_module_get_global, base_of,
}
use rouge_v.Driver.Modules.Globals.{
  lookup-erase_globals, lookup-erase_globals_other, lookup-back_global, back_global-found,
}

-- Unloading a module that is loaded succeeds, takes the module and the storage of all its globals
-- out of the tables, and leaves the other modules and all storage under other keys.
pub cu_module_unload_lem :
    (key : ℕ) (prog : PtxProgram) (c : Context)
    → lookup key c.modules ≡ some prog
    → ((cu_module_unload key c).result ≡ success)
      × ((k : ℕ)
          → lookup k (cu_module_unload key c).context.modules
            ≡ (if key == k then none else lookup k c.modules))
      × ((i : ℕ)
          → i < length prog.globals
          → lookup (global_storage_key key i) (cu_module_unload key c).context.global_storage
            ≡ none)
      × ((q : ℕ)
          → ((i : ℕ) → i < length prog.globals → global_storage_key key i ≢ q)
          → lookup q (cu_module_unload key c).context.global_storage ≡ lookup q c.global_storage)
unfolding cu_module_unload
cu_module_unload_lem key prog c loaded =
    rw (loaded, cu_module_unload)
      (
        refl,
        λ k. lookup-erase key k c.modules,
        λ i h.
            lookup-erase_globals key 0 (length prog.globals) i c.global_storage (omega arith)
              (omega arith),
        λ q apart.
            lookup-erase_globals_other key 0 (length prog.globals) q c.global_storage
              (λ j h. apart j (omega arith)),
      )

-- The reply to a call for a global that the module declares.
pub get_global_found :
    (host : Host) (bytes : Bool) (hmod index : ℕ) (name : String) (prog : PtxProgram)
    (gv : PtxGlobalVar) (c : Context)
    → lookup hmod c.modules ≡ some prog
    → lookup_name name prog.global_index ≡ some index
    → get_elem? prog.globals index ≡ some gv
    → cu_module_get_global host true bytes hmod (some name) c
      ≡ ok
          (base_of (
              lookup
                (global_storage_key hmod index)
                (back_global host
                  (global_storage_key hmod index)
                  (global_bytes gv)
                  c).global_storage)
            ∷ (if bytes then global_bytes gv ∷ [] else []))
          (back_global host (global_storage_key hmod index) (global_bytes gv) c)
unfolding cu_module_get_global
get_global_found host bytes hmod index name prog gv c loaded named declared =
    ground (arith, loaded, named, declared)

back_global-modules :
    (host : Host) (key n : ℕ) (c : Context) → (back_global host key n c).modules ≡ c.modules
unfolding back_global
back_global-modules host key n c = ground arith

-- The second call for a global answers the address and the size of the first, and leaves all
-- bytes: what was written through the pointer stays.
pub cu_module_get_global_twice :
    (host host' : Host) (bytes : Bool) (hmod index : ℕ) (name : String) (prog : PtxProgram)
    (gv : PtxGlobalVar) (c : Context)
    → lookup hmod c.modules ≡ some prog
    → lookup_name name prog.global_index ≡ some index
    → get_elem? prog.globals index ≡ some gv
    → ((cu_module_get_global host' true bytes hmod
          (some name)
          (cu_module_get_global host true bytes hmod (some name) c).context).out
        ≡ (cu_module_get_global host true bytes hmod (some name) c).out)
      × ((cu_module_get_global host' true bytes hmod
            (some name)
            (cu_module_get_global host true bytes hmod (some name) c).context).context.memory
          ≡ (cu_module_get_global host true bytes hmod (some name) c).context.memory)
cu_module_get_global_twice host host' bytes hmod index name prog gv c loaded named declared =
    let key = global_storage_key hmod index in
    let n = global_bytes gv in
    let c' = back_global host key n c in
    let (b, stored) = lookup-back_global host key n c in
    let again = back_global-found host' key n b c' stored in
    let loaded' : lookup hmod c'.modules ≡ some prog =
      ap (lookup hmod) (back_global-modules host key n c) ∙ loaded in
    let first = get_global_found host bytes hmod index name prog gv c loaded named declared in
    let second = get_global_found host' bytes hmod index name prog gv c' loaded' named declared in
    rw (first, second, again.0, stored) (refl, again.1)
