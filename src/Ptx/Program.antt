-- ===== src/Ptx/Program.antt =====
-- software/rouge-ptx/ptx.h: a parsed program. An `int` that holds a size, an offset or a number
-- of elements is its pattern of 32 bits; one that holds a place in a list is a number.
use Prim.Native.String.{String}
use rouge_v.Base.{ℕ, Bool, List}
use rouge_v.Ptx.Layout.{PtxSharedVar, PtxLocalVar}

pub record PtxInstruction : Type 0 where
  pub op : String
  pub pred : String
  pub args : List String

pub record PtxParam : Type 0 where
  pub param_name : String
  pub width : ℕ
  pub index : ℕ
  pub param_offset : ℕ

pub record PtxGlobalVar : Type 0 where
  pub global_name : String
  pub global_align : ℕ
  pub global_elem_bytes : ℕ
  pub global_count : ℕ
  pub is_const : Bool

-- `sharedIndex` and `localIndex` are the places of the names in the lists of variables.
pub record PtxFunction : Type 0 where
  pub function_name : String
  pub params : List PtxParam
  pub body : List PtxInstruction
  pub labels : List (String × ℕ)
  pub reg_bits : List (String × ℕ)
  pub shared_vars : List (PtxSharedVar String)
  pub shared_size : ℕ
  pub local_vars : List (PtxLocalVar String)
  pub local_size : ℕ
  pub params_blob_size : ℕ

pub record PtxProgram : Type 0 where
  pub functions : List PtxFunction
  pub function_index : List (String × ℕ)
  pub globals : List PtxGlobalVar
  pub global_index : List (String × ℕ)
  pub target_sm : ℕ
