-- ===== src/Runtime/Calls/Programs.antt =====
-- The programs of the runtime are programs of the parser.
use Prim.Native.String.{String}
use rouge_v.Base.{
  ℕ, zero, suc, ◌<◌, ◌==◌, Bool, true, false, List, [], ◌∷◌, ◌++◌, Option, none, some, ◌≡◌, refl,
  arith, if◌then◌else◌, length, get_elem?, if_elim, Bool-cases, Option-cases, inl, inr, ◌⊎◌, sym,
}
use rouge_v.Base.Text.{same_name}
use rouge_v.Base.Assoc.{lookup_name}
use rouge_v.Ptx.Execute.{Dim3}
use rouge_v.Ptx.Program.{PtxProgram, PtxFunction}
use rouge_v.Ptx.Parse.Module.{done, parse_ptx}
use rouge_v.Ptx.Parse.WellFormed.{IsFunction, IsProgram, parse_ptx-IsProgram}
use rouge_v.Ptx.Parse.WellFormed.Functions.{IsBelow, HasRoom}
use rouge_v.Ptx.Parse.WellFormed.Readings.{AllFunctions}
use rouge_v.Base.Chars.{split}
use rouge_v.Fatbin.{rouge_fatbin_extract_ptx}
use rouge_v.Runtime.Launch.{launch_found, ready_modules, launch_registered}
use mathlib.Core.Path.{subst}
use rouge_v.Runtime.{State, World}
use rouge_v.Runtime.Device.{find_kernel}
use rouge_v.Runtime.Register.{
  parsed_programs, load_paths, load_ptx_modules, cuda_register_fat_binary,
}

-- The host's parser is the parser, on texts whose declarations have room.
abbrev pub Parses : World → Type 0
Parses world =
    (image : String) (prog : PtxProgram)
    → world.host.parse_ptx image ≡ some prog
    → (parse_ptx image ≡ done prog) × HasRoom image

abbrev pub AllPrograms : List PtxProgram → Type 0
AllPrograms [] = Unit {0}
AllPrograms (prog ∷ progs) = IsProgram prog × AllPrograms progs

AllPrograms-append :
    (ps qs : List PtxProgram) → AllPrograms ps → AllPrograms qs → AllPrograms (ps ++ qs)
AllPrograms-append [] qs h k = k
AllPrograms-append (p ∷ ps) qs h k = (h.0, AllPrograms-append ps qs h.1 k)

lookup_name-below :
    (bound : ℕ) (key : String) (n : ℕ) (m : List (String × ℕ))
    → IsBelow bound m
    → lookup_name key m ≡ some n
    → n < bound
unfolding lookup_name
lookup_name-below bound key n [] below found = absurd (cc)
lookup_name-below bound key n ((key', n') ∷ m) below found =
    elim (Bool-cases (same_name key' key)) [
      | inl same ↦ let e : n' ≡ n = ground arith in omega (arith, below.0)
      | inr other ↦ lookup_name-below bound key n m below.1 (ground arith)
    ]

get-IsFunction :
    (fs : List PtxFunction) (i : ℕ)
    → AllFunctions IsFunction fs
    → i < length fs
    → (fn : PtxFunction) × (get_elem? fs i ≡ some fn) × IsFunction fn
get-IsFunction [] i all below = absurd (omega arith)
get-IsFunction (fn ∷ fs) zero all below = (fn, refl, all.0)
get-IsFunction (fn ∷ fs) (suc i) all below = get-IsFunction fs i all.1 (omega arith)

-- A kernel that is found in such modules is one of the functions of its program.
pub find_kernel-IsFunction :
    (name : String) (progs : List PtxProgram) (prog : PtxProgram) (index : ℕ)
    → AllPrograms progs
    → find_kernel name progs ≡ some (prog, index)
    → (fn : PtxFunction) × (get_elem? prog.functions index ≡ some fn) × IsFunction fn
unfolding find_kernel
find_kernel-IsFunction name [] prog index all found = absurd (cc)
find_kernel-IsFunction name (p ∷ progs) prog index all found =
    elim (Option-cases (lookup_name name p.function_index)) [
      | inl missing ↦
          find_kernel-IsFunction name progs prog index all.1 (rw (find_kernel, missing) at found)
      | inr (i, known) ↦
          let here : ◌≡◌ {A = Option (PtxProgram × ℕ)} (some (p, i)) (some (prog, index)) =
            rw (find_kernel, known) at found in
          let same : p ≡ prog = cc in
          let same_index : i ≡ index = cc in
          let below =
            lookup_name-below (length p.functions) name i p.function_index all.0.functions_known
              known in
          rw (same, same_index) at (get-IsFunction p.functions i all.0.well_formed below)
    ]

parsed_programs-AllPrograms :
    (world : World) (ts : List String) → Parses world → AllPrograms (parsed_programs world ts)
unfolding parsed_programs
parsed_programs-AllPrograms world [] parses = tt
parsed_programs-AllPrograms world (t ∷ ts) parses =
    let rest = parsed_programs-AllPrograms world ts parses in
    elim (Option-cases (world.host.parse_ptx t)) [
      | inl bad ↦ rw (parsed_programs, bad) rest
      | inr (prog, good) ↦
          rw (parsed_programs, good)
            (parse_ptx-IsProgram t prog (parses t prog good).1 (parses t prog good).0, rest)
    ]

pub register_fat_binary-AllPrograms :
    (world : World) (handle : ℕ) (s : State)
    → Parses world
    → AllPrograms s.runtime_modules
    → AllPrograms (cuda_register_fat_binary world handle s).1.runtime_modules
unfolding cuda_register_fat_binary
register_fat_binary-AllPrograms world handle s parses all =
    if_elim (λ (r : ℕ × State). AllPrograms r.1.runtime_modules) (handle == 0) _ _ all
      (elim (rouge_fatbin_extract_ptx world.decompress s.context.memory handle)
        as (λ o. AllPrograms (
          (elim o as (λ x. ℕ × State) [
            | none ↦ (handle, s)
            | some extracted ↦ (
              handle,
              record s {
                runtime_modules = s.runtime_modules ++ parsed_programs world extracted.texts;
              },
            )
          ]).1.runtime_modules)) [
            | none ↦ all
            | some extracted ↦
                AllPrograms-append s.runtime_modules _ all
                  (parsed_programs-AllPrograms world extracted.texts parses)
          ])

load_paths-AllPrograms :
    (world : World) (paths : List String) (s : State)
    → Parses world
    → AllPrograms s.runtime_modules
    → AllPrograms (load_paths world paths s).1.runtime_modules
unfolding load_paths
load_paths-AllPrograms world [] s parses all = all
load_paths-AllPrograms world (path ∷ paths) s parses all = elim (Bool-cases (same_name path "")) [
  | inl blank ↦ rw (load_paths, blank) (load_paths-AllPrograms world paths s parses all)
  | inr path_there ↦ elim (Option-cases (world.read_file path)) [
    | inl missing ↦ rw (load_paths, path_there, missing) all
    | inr (image, read) ↦ elim (Option-cases (world.host.parse_ptx image)) [
      | inl bad ↦ rw (load_paths, path_there, read, bad) all
      | inr (prog, good) ↦
          rw (load_paths, path_there, read, good)
            (load_paths-AllPrograms world paths
              (record s { runtime_modules = s.runtime_modules ++ (prog ∷ []) }) parses
              (AllPrograms-append s.runtime_modules (prog ∷ []) all (
                parse_ptx-IsProgram image prog (parses image prog good).1
                    (parses image prog good).0,
                tt,
              )))
    ]
  ]
]

ready_modules-AllPrograms :
    (world : World) (s : State)
    → Parses world
    → AllPrograms s.runtime_modules
    → AllPrograms (ready_modules world s).1.runtime_modules
unfolding ready_modules load_ptx_modules
ready_modules-AllPrograms world s parses all = go s.runtime_modules (go' world.rouge_cuda_ptx)
  where
    go' :
        (o : Option String)
        → AllPrograms (
            (elim o as (λ x. Bool × State) [
              | none ↦ (false, s)
              | some list ↦
                  if same_name list "" then (false, s) else load_paths world (split b':' list) s
            ]).1.runtime_modules)
    go' none = all
    go' (some list) =
        if_elim (λ (r : Bool × State). AllPrograms r.1.runtime_modules) (same_name list "") _ _ all
          (load_paths-AllPrograms world (split b':' list) s parses all)

    go :
        (ms : List PtxProgram)
        → AllPrograms (load_ptx_modules world s).1.runtime_modules
        → AllPrograms (
            (elim ms as (λ x. Bool × State) [
              | [] ↦ load_ptx_modules world s
              | _ ↦ (true, s)
            ]).1.runtime_modules)
    go [] loaded = loaded
    go (m ∷ ms) loaded = all

launch_found-runtime_modules :
    (world : World) (found : PtxProgram × ℕ) (grid block : Dim3) (args : ℕ → ℕ) (shared_mem : ℕ)
    (s : State)
    → (launch_found world found grid block args shared_mem s).1.runtime_modules ≡ s.runtime_modules
unfolding launch_found
launch_found-runtime_modules world (prog, index) grid block args shared_mem s = ground arith

launched_modules :
    (world : World) (stub : ℕ) (grid block : Dim3) (args : Option (ℕ → ℕ)) (shared_mem : ℕ)
    (s : State)
    → (let ms = (launch_registered world stub grid block args shared_mem s).1.runtime_modules in
        (ms ≡ s.runtime_modules) ⊎ (ms ≡ (ready_modules world s).1.runtime_modules))
unfolding launch_registered
launched_modules world stub grid block none shared_mem s = inl refl
launched_modules world stub grid block (some args) shared_mem s =
    grind (arith, launch_found-runtime_modules world)

pub launch_registered-AllPrograms :
    (world : World) (stub : ℕ) (grid block : Dim3) (args : Option (ℕ → ℕ)) (shared_mem : ℕ)
    (s : State)
    → Parses world
    → AllPrograms s.runtime_modules
    → AllPrograms (launch_registered world stub grid block args shared_mem s).1.runtime_modules
launch_registered-AllPrograms world stub grid block args shared_mem s parses all =
    elim (launched_modules world stub grid block args shared_mem s) [
      | inl same ↦ subst (λ ms. AllPrograms ms) (sym same) all
      | inr loaded ↦
          subst (λ ms. AllPrograms ms) (sym loaded) (ready_modules-AllPrograms world s parses all)
    ]
