-- ===== src/Driver/Launch/Bases.antt =====
-- The address that a launch finds for a global is the one that `cuModuleGetGlobal` hands out.
use Prim.Native.String.{String}
use rouge_v.Base.{
  ℕ, zero, suc, ◌+◌, ◌≡◌, ◌≢◌, refl, arith, true, false, List, [], ◌∷◌, Option, none, some, ◌==◌,
  if◌then◌else◌, get_elem?, ◌∙◌,
}
use rouge_v.Base.Text.{same_name, same_name_iff}
use rouge_v.Base.Assoc.{lookup, lookup_name, assign_name, lookup_name-assign_name}
use rouge_v.Ptx.Program.{PtxProgram, PtxGlobalVar}
use rouge_v.Driver.{Context, Storage, Host, global_storage_key}
use rouge_v.Driver.Modules.{global_bytes, back_global, cu_module_get_global}
use rouge_v.Driver.Modules.Globals.{lookup-back_global}
use rouge_v.Driver.Modules.Laws.{get_global_found}
use rouge_v.Driver.Launch.{fill_bases}

-- Globals of other names leave the base of a name.
lookup_name-fill_bases_other :
    (key : ℕ) (storage : List (ℕ × Storage)) (i : ℕ) (gs : List PtxGlobalVar)
    (bases : List (String × ℕ)) (name : String)
    → ((k : ℕ) (g : PtxGlobalVar) → get_elem? gs k ≡ some g → same_name g.global_name name ≡ false)
    → lookup_name name (fill_bases key storage i gs bases) ≡ lookup_name name bases
unfolding fill_bases
lookup_name-fill_bases_other key storage i [] bases name others = refl
lookup_name-fill_bases_other key storage i (g ∷ gs) bases name others =
    lookup_name-fill_bases_other key storage (i + 1) gs _ name (λ k g' h. others (suc k) g' h)
    ∙ kept (lookup (global_storage_key key i) storage)
  where
    kept :
        (o : Option Storage)
        → lookup_name name (elim o as (λ x. List (String × ℕ)) [
          | none ↦ bases
          | some s ↦ if s.size == 0 then bases else assign_name g.global_name s.base bases
        ])
          ≡ lookup_name name bases
    kept none = refl
    kept (some s) =
        ground (arith, others 0 g refl, lookup_name-assign_name g.global_name name s.base bases)

lookup_name-fill_bases :
    (key : ℕ) (storage : List (ℕ × Storage)) (i k : ℕ) (gs : List PtxGlobalVar) (g : PtxGlobalVar)
    (s : Storage) (bases : List (String × ℕ))
    → get_elem? gs k ≡ some g
    → lookup (global_storage_key key (i + k)) storage ≡ some s
    → s.size ≢ 0
    → ((j : ℕ) (g' : PtxGlobalVar)
        → get_elem? gs j ≡ some g'
        → j ≢ k
        → same_name g'.global_name g.global_name ≡ false)
    → lookup_name g.global_name (fill_bases key storage i gs bases) ≡ some s.base
unfolding fill_bases
lookup_name-fill_bases key storage i k [] g s bases found stored filled unique = absurd (cc)
lookup_name-fill_bases key storage i zero (g' ∷ gs) g s bases found stored filled unique =
    let same : g' ≡ g = cc in
    let here : i + 0 ≡ i = omega arith in
    let stored' = rw here at stored in
    let self : same_name g.global_name g.global_name ≡ true = (same_name_iff _ _).1 refl in
    let nonzero : (s.size == 0) ≡ false = ground arith in
    lookup_name-fill_bases_other key storage (i + 1) gs _ g.global_name
      (λ j g'' h. unique (suc j) g'' h (omega arith))
    ∙ rw (stored', nonzero, same)
        (lookup_name-assign_name g.global_name g.global_name s.base bases ∙ rw self refl)
lookup_name-fill_bases key storage i (suc k) (g' ∷ gs) g s bases found stored filled unique =
    let there : i + suc k ≡ i + 1 + k = omega arith in
    let stored' = rw there at stored in
    lookup_name-fill_bases key storage (i + 1) k gs g s _ found stored' filled
      (λ j g'' h apart. unique (suc j) g'' h (omega arith))

-- Behind a call for a global of at least one byte, whose name no other global of the module has,
-- the map of bases that a launch of the module builds gives the address of the reply.
pub fill_bases-cu_module_get_global :
    (host : Host) (hmod index : ℕ) (prog : PtxProgram) (gv : PtxGlobalVar) (c : Context)
    → lookup hmod c.modules ≡ some prog
    → lookup_name gv.global_name prog.global_index ≡ some index
    → get_elem? prog.globals index ≡ some gv
    → global_bytes gv ≢ 0
    → ((j : ℕ) (g : PtxGlobalVar)
        → get_elem? prog.globals j ≡ some g
        → j ≢ index
        → same_name g.global_name gv.global_name ≡ false)
    → (p : ℕ) × ((cu_module_get_global host true false hmod (some gv.global_name) c).out ≡ p ∷ [])
      × (lookup_name gv.global_name (
            fill_bases hmod
              (cu_module_get_global host true false hmod
                (some gv.global_name)
                c).context.global_storage
              0
              prog.globals
              [])
          ≡ some p)
fill_bases-cu_module_get_global host hmod index prog gv c loaded named declared filled unique =
    let key = global_storage_key hmod index in
    let (b, stored) = lookup-back_global host key (global_bytes gv) c in
    let reply =
      get_global_found host false hmod index gv.global_name prog gv c loaded named declared in
    let here : 0 + index ≡ index = omega arith in
    let storage = (back_global host key (global_bytes gv) c).global_storage in
    let stored' : lookup (global_storage_key hmod (0 + index)) storage
        ≡ some (record { base = b; size = global_bytes gv }) =
      rw here stored in
    (
      b,
      rw (reply, stored) refl,
      rw reply (
          lookup_name-fill_bases hmod storage 0 index prog.globals gv
            (record { base = b; size = global_bytes gv }) [] declared stored' filled unique),
    )

-- Without storage no global has a base.
pub fill_bases-nil :
    (key i : ℕ) (gs : List PtxGlobalVar) (bases : List (String × ℕ))
    → fill_bases key [] i gs bases ≡ bases
unfolding fill_bases lookup
fill_bases-nil key i [] bases = refl
fill_bases-nil key i (g ∷ gs) bases = fill_bases-nil key (i + 1) gs bases
