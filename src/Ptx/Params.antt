-- ===== src/Ptx/Params.antt =====
-- software/rouge-ptx/ptx.cpp: `param_width` and `parse_param_entry`, on the words of an entry of
-- a kernel's signature.
pub mod Packed
use Prim.Native.String.{String}
use rouge_v.Base.{
  ℕ, ◌+◌, Bool, true, false, not, ◌||◌, List, [], ◌∷◌, ◌++◌, Option, none, some, ◌==◌,
  if◌then◌else◌, length,
}
use rouge_v.Base.Text.{same_name}
use rouge_v.Ptx.Program.{PtxParam, PtxFunction}

unfoldable pub param_width : String → ℕ
param_width type =
    if same_name type ".u64"
      || same_name type ".s64"
      || same_name type ".b64"
      || same_name type ".f64"
    then 8
    else if same_name type ".u32"
        || same_name type ".s32"
        || same_name type ".b32"
        || same_name type ".f32"
    then 4
    else 0

-- The loop over the words behind `.param`: the last width that is not 0, and the last word.
unfoldable pub param_words : ℕ → String → List String → ℕ × String
param_words w name [] = (w, name)
param_words w name (tok ∷ toks) =
    let tw = param_width tok in param_words (if tw == 0 then w else tw) tok toks

-- `none` is the error "unsupported param type".
unfoldable pub parse_param_entry : List String → PtxFunction → Option PtxFunction
parse_param_entry [] fn = some fn
parse_param_entry (tok ∷ toks) fn =
    if not (same_name tok ".param")
    then some fn
    else let (w, name) = param_words 0 "" toks in
      if w == 0 || same_name name ""
      then none
      else some (record fn {
        params =
            fn.params
            ++ (record {
              param_name = name;
              width = w;
              index = length fn.params;
              param_offset = fn.params_blob_size;
            }
                ∷ []);
        params_blob_size = fn.params_blob_size + w;
      })

-- The entries of one signature.
unfoldable pub parse_param_entries : List (List String) → PtxFunction → Option PtxFunction
parse_param_entries [] fn = some fn
parse_param_entries (e ∷ es) fn = elim (parse_param_entry e fn) [
  | none ↦ none
  | some fn' ↦ parse_param_entries es fn'
]
