-- ===== src/Ptx/Params/Packed.antt =====
-- The parameters of a signature stand one behind the other in the blob.
use Prim.Native.String.{String}
use rouge_v.Base.{
  ℕ, ◌+◌, ◌≤◌, ◌≡◌, not, ◌||◌, List, [], ◌∷◌, ◌++◌, Option, none, some, ◌==◌, length, arith, refl,
  Bool-cases, inl, inr,
}
use rouge_v.Base.Text.{same_name}
use rouge_v.Ptx.Program.{PtxParam, PtxFunction}
use rouge_v.Ptx.Params.{param_words, parse_param_entry, parse_param_entries}

-- From byte `from` and place `at` on: each parameter starts where the one before ended or later,
-- the last one ends within `size`, and the indices count the places.
abbrev pub ParamsPacked : ℕ → ℕ → List PtxParam → ℕ → Type 0
ParamsPacked from at [] size = from ≤ size
ParamsPacked from at (p ∷ ps) size =
    (from ≤ p.param_offset)
    × (p.index ≡ at)
    × ParamsPacked (p.param_offset + p.width) (at + 1) ps size

abbrev pub SignaturePacked : PtxFunction → Type 0
SignaturePacked fn = ParamsPacked 0 0 fn.params fn.params_blob_size

append-ParamsPacked :
    (from at : ℕ) (ps : List PtxParam) (p : PtxParam) (size : ℕ)
    → ParamsPacked from at ps size
    → p.param_offset ≡ size
    → p.index ≡ at + length ps
    → ParamsPacked from at (ps ++ (p ∷ [])) (size + p.width)
append-ParamsPacked from at [] p size h e i = (omega arith, omega arith, omega arith)
append-ParamsPacked from at (q ∷ ps) p size h e i = (
  h.0,
  h.1,
  append-ParamsPacked (q.param_offset + q.width) (at + 1) ps p size h.2 e (omega arith),
)

-- What holds of the function, where there is one.
abbrev pub IfParsed : (PtxFunction → Type 0) → Option PtxFunction → Type 0
IfParsed P none = Unit {0}
IfParsed P (some fn) = P fn

pub parse_param_entry-SignaturePacked :
    (entry : List String) (fn : PtxFunction)
    → SignaturePacked fn
    → IfParsed SignaturePacked (parse_param_entry entry fn)
unfolding parse_param_entry
parse_param_entry-SignaturePacked [] fn h = h
parse_param_entry-SignaturePacked (tok ∷ toks) fn h =
    elim (Bool-cases (not (same_name tok ".param"))) [
      | inl other ↦ rw other h
      | inr param ↦
          let w = (param_words 0 "" toks).0 in
          let name = (param_words 0 "" toks).1 in
          elim (Bool-cases (w == 0 || same_name name "")) [
            | inl bad ↦ rw (param, bad) tt
            | inr good ↦
                rw (param, good)
                  (append-ParamsPacked 0 0 fn.params
                    (record {
                      param_name = name;
                      width = w;
                      index = length fn.params;
                      param_offset = fn.params_blob_size;
                    })
                    fn.params_blob_size h refl (omega arith))
          ]
    ]

-- The entries of a signature keep the parameters packed.
pub parse_param_entries-SignaturePacked :
    (entries : List (List String)) (fn : PtxFunction)
    → SignaturePacked fn
    → IfParsed SignaturePacked (parse_param_entries entries fn)
unfolding parse_param_entries
parse_param_entries-SignaturePacked [] fn h = h
parse_param_entries-SignaturePacked (e ∷ es) fn h =
    go (parse_param_entry e fn) (parse_param_entry-SignaturePacked e fn h)
      (parse_param_entries-SignaturePacked es)
  where
    go :
        (o : Option PtxFunction)
        → IfParsed SignaturePacked o
        → ((fn' : PtxFunction)
            → SignaturePacked fn'
            → IfParsed SignaturePacked (parse_param_entries es fn'))
        → IfParsed SignaturePacked (elim o as (λ x. Option PtxFunction) [
          | none ↦ none
          | some fn' ↦ parse_param_entries es fn'
        ])
    go none p next = tt
    go (some fn') p next = next fn' p
