-- ===== src/Ir.antt =====
-- include/alir/alir.h, include/parser/typestruct.h and include/common/aliases.h: the ALIR module.
-- A pointer that may be NULL is an `Option`; a linked list is a `List`, in its order; an array with
-- its count is a `List` too. An `int` and an enum are the number of their bit pattern, below
-- 2 ^ 32; a `Value` union is its eight bytes as a number, below 2 ^ 64, beside the text that its
-- `char *` member points to. Left out: a type's `fp_ret_type` and `fp_param_types`, a block's
-- `pred` and `succ` lists, and the module's maps and context pointer.
use alkyl.Prelude.{ℕ, Bool, Option, List, Str}
pub mod Names
pub mod Op

pub record VarType : Type 0 where
  pub base : ℕ
  pub ptr_depth : ℕ
  pub class_name : Option Str
  pub array_size : ℕ
  pub array_depth : ℕ
  pub fp_param_count : ℕ
  pub is_unsigned : Bool
  pub is_func_ptr : Bool
  pub fp_is_varargs : Bool
  pub is_tainted : Bool
  pub is_pristine : Bool

-- `bits` is the union read as `unsigned long`, `str_val` the union read as `char *`.
pub record Value : Type 0 where
  pub kind : ℕ
  pub type : VarType
  pub temp_id : ℕ
  pub bits : ℕ
  pub str_val : Option Str

pub record Inst : Type 0 where
  pub op : ℕ
  pub dest : Option Value
  pub op1 : Option Value
  pub op2 : Option Value
  pub args : List (Option Value)
  pub custom_flag : ℕ
  pub line : ℕ
  pub col : ℕ

-- `head` and `tail` are the two ends of `insts`.
pub record Block : Type 0 where
  pub id : ℕ
  pub label : Option Str
  pub insts : List Inst

pub record Param : Type 0 where
  pub name : Option Str
  pub type : VarType

pub record Function : Type 0 where
  pub name : Option Str
  pub ret_type : VarType
  pub params : List Param
  pub param_count : ℕ
  pub blocks : List Block
  pub block_count : ℕ
  pub is_flux : ℕ
  pub is_varargs : ℕ
  pub is_extern : ℕ
  pub is_pure : ℕ
  pub reason : Option Str
  pub cconv : Option Str

pub record Field : Type 0 where
  pub name : Option Str
  pub type : VarType
  pub index : ℕ

pub record Struct : Type 0 where
  pub name : Option Str
  pub fields : List Field
  pub field_count : ℕ
  pub is_union : ℕ

pub record EnumEntry : Type 0 where
  pub name : Option Str
  pub value : ℕ

pub record Enum : Type 0 where
  pub name : Option Str
  pub entries : List EnumEntry

pub record Global : Type 0 where
  pub name : Option Str
  pub string_content : Option Str
  pub type : VarType

pub record Module : Type 0 where
  pub name : Option Str
  pub globals : List Global
  pub functions : List Function
  pub structs : List Struct
  pub enums : List Enum
  pub str_counter : ℕ
  pub src : Option Str
  pub filename : Option Str
