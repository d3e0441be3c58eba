-- ===== src/Ptx/Parse/Examples.antt =====
-- A module with one kernel, whose body has a label and a scratchpad.
use Prim.Native.String.{String}
use rouge_v.Base.{◌≡◌, refl, arith, false, [], ◌∷◌}
use rouge_v.Ptx.Program.{PtxProgram}
use rouge_v.Base.Chars.{
  atoi, before, behind_prefix, contains, cut, digits_from, drop, find_text, pieces, split, trim,
  trim_back, trim_front, word_pieces, words,
}
use rouge_v.Base.Assoc.{assign_name}
use rouge_v.Ptx.Params.{parse_param_entries, parse_param_entry, param_words, param_width}
use rouge_v.Ptx.Layout.{align_up, int_div, place_shared, shared_tokens, parse_shared_decl}
use rouge_v.Ptx.Parse.{
  arguments, behind_comment, drop_last, drop_sigil, erase_volatile, erase_volatiles, find_label,
  ident_cont, ident_start, is_blank_or_comment, norm_operand, operation, parse_instruction,
  parse_statement, predicate, register_in_brackets, scan_label, skip_space, strip_comment,
}
use rouge_v.Ptx.Parse.Declarations.{
  decimal, decl_tokens, declare_register, declare_registers, declare_shared, drop_ends,
  number_registers, parse_reg_decl, reg_bits_of, shared_elem_bytes, tokens, variable_token,
  without_extern,
}
use rouge_v.Ptx.Parse.Module.{
  done, body_line, code_line, declare_all, finish, inner_line, instruction_line, label_line,
  module_line, parse_line, parse_lines, parse_ptx, start_function,
}
use rouge_v.Ptx.Parse.Labels.{Answers, find_label_lem}
use rouge_v.Ptx.Parse.WellFormed.Functions.{HasRoom}

abbrev pub image : String
image =
    ".target sm_75\n.entry k(.param .u64 a, .param .u32 n) {\n  .reg .b32 %r<2>;\n  .shared .align 4 .b32 tile[8];\n$L: // loop\n  @!%p1 bra $L;\n  ret;\n}"

abbrev pub program : PtxProgram
program = record {
  functions =
      record {
        function_name = "k";
        params =
            record { param_name = "a"; width = 8; index = 0; param_offset = 0 }
            ∷ record { param_name = "n"; width = 4; index = 1; param_offset = 8 }
            ∷ [];
        body =
            record { op = "bra"; pred = "!p1"; args = "$L" ∷ [] }
            ∷ record { op = "ret"; pred = ""; args = [] }
            ∷ [];
        labels = ("$L", 0) ∷ [];
        reg_bits = ("r0", 32) ∷ ("r1", 32) ∷ [];
        shared_vars =
            record {
              name = "tile";
              align = 4;
              elem_bytes = 4;
              count = 8;
              offset = 0;
              dynamic = false;
            }
            ∷ [];
        shared_size = 32;
        local_vars = [];
        local_size = 0;
        params_blob_size = 12;
      }
      ∷ [];
  function_index = ("k", 0) ∷ [];
  globals = [];
  global_index = [];
  target_sm = 75;
}

pub parsed : parse_ptx image ≡ done program
unfolding atoi before behind_prefix contains cut digits_from drop find_text pieces split trim
    trim_back trim_front word_pieces words assign_name parse_param_entries parse_param_entry
    param_words param_width align_up int_div place_shared shared_tokens parse_shared_decl arguments
    behind_comment drop_last drop_sigil erase_volatile erase_volatiles find_label ident_cont
    ident_start is_blank_or_comment norm_operand operation parse_instruction parse_statement
    predicate register_in_brackets scan_label skip_space strip_comment decimal decl_tokens
    declare_register declare_registers declare_shared drop_ends number_registers parse_reg_decl
    reg_bits_of shared_elem_bytes tokens variable_token without_extern body_line code_line
    declare_all finish inner_line instruction_line label_line module_line parse_line parse_lines
    parse_ptx start_function
parsed = refl

pub image-HasRoom : HasRoom image
unfolding atoi before behind_prefix contains cut digits_from drop find_text pieces split trim
    trim_back trim_front word_pieces words drop_last strip_comment decl_tokens shared_elem_bytes
    tokens variable_token without_extern
image-HasRoom = record { shared_fits = omega arith; local_fits = omega arith }

abbrev labelled_line : String
labelled_line = "@%p1 bra $L_2; $L_1: /* loop */"

find_label_lem_example : Answers labelled_line (find_label labelled_line)
find_label_lem_example = find_label_lem labelled_line
