-- ===== src/Binary/Kept.antt =====
-- What the binary format keeps of a module, and which modules fit its fields.
use alkyl.Prelude.{
  ℕ, ◌+◌, ◌%◌, ◌^◌, ◌<◌, ◌≡◌, false, Option, none, some, [], map, if◌then◌else◌, length, All, Str,
}
use alkyl.Ir.{VarType, Value, Inst, Block, Param, Function, Field, Struct, Global, Module}
use alkyl.Binary.Write.{is_number, is_text}

-- A number of 32 bits; a C string whose length with its terminator is one; a non-null byte.
abbrev pub IsU32 : ℕ → Type 0
IsU32 n = n < 2 ^ 32

abbrev pub IsCharacter : ℕ → Type 0
IsCharacter b = (0 < b) × (b < 256)

abbrev pub FitsStr : Option Str → Type 0
FitsStr none = Unit
FitsStr (some s) = IsU32 (length s + 1) × All IsCharacter s

pub record FitsType (t : VarType) : Type 0 where
  pub base : t.base < 256
  pub ptr_depth : IsU32 t.ptr_depth
  pub class_name : FitsStr t.class_name
  pub array_size : IsU32 t.array_size
  pub array_depth : IsU32 t.array_depth
  pub fp_param_count : IsU32 t.fp_param_count

-- The kind 0xff is the mark of NULL.
pub record FitsSome (v : Value) : Type 0 where
  pub kind : v.kind < 255
  pub type : FitsType v.type
  pub temp_id : IsU32 v.temp_id
  pub str_val : FitsStr v.str_val

abbrev pub FitsValue : Option Value → Type 0
FitsValue none = Unit
FitsValue (some v) = FitsSome v

pub record FitsInst (i : Inst) : Type 0 where
  pub op : IsU32 i.op
  pub dest : FitsValue i.dest
  pub op1 : FitsValue i.op1
  pub op2 : FitsValue i.op2
  pub arg_count : length i.args < 2 ^ 31
  pub args : All FitsValue i.args
  pub line : IsU32 i.line
  pub col : IsU32 i.col

pub record FitsBlock (b : Block) : Type 0 where
  pub label : FitsStr b.label
  pub count : IsU32 (length b.insts)
  pub insts : All FitsInst b.insts

pub record FitsParam (p : Param) : Type 0 where
  pub name : FitsStr p.name
  pub type : FitsType p.type

-- `counted`: the count that is written is the number of parameters that follow it.
pub record FitsFunction (fn : Function) : Type 0 where
  pub name : FitsStr fn.name
  pub ret_type : FitsType fn.ret_type
  pub cconv : FitsStr fn.cconv
  pub counted : fn.param_count ≡ length fn.params
  pub param_count : length fn.params < 2 ^ 31
  pub params : All FitsParam fn.params
  pub block_count : IsU32 (length fn.blocks)
  pub blocks : All FitsBlock fn.blocks

pub record FitsField (fd : Field) : Type 0 where
  pub name : FitsStr fd.name
  pub type : FitsType fd.type
  pub index : IsU32 fd.index

pub record FitsStruct (st : Struct) : Type 0 where
  pub name : FitsStr st.name
  pub field_count : IsU32 st.field_count
  pub count : IsU32 (length st.fields)
  pub fields : All FitsField st.fields

pub record FitsGlobal (g : Global) : Type 0 where
  pub name : FitsStr g.name
  pub type : FitsType g.type
  pub string_content : FitsStr g.string_content

pub record FitsModule (m : Module) : Type 0 where
  pub name : FitsStr m.name
  pub filename : FitsStr m.filename
  pub global_count : IsU32 (length m.globals)
  pub globals : All FitsGlobal m.globals
  pub struct_count : IsU32 (length m.structs)
  pub structs : All FitsStruct m.structs
  pub function_count : IsU32 (length m.functions)
  pub functions : All FitsFunction m.functions

-- A type loses its sign, and that it is a function pointer.
unfoldable pub keep_type : VarType → VarType
keep_type t = record t { is_unsigned = false; is_func_ptr = false; fp_is_varargs = false }

-- A number loses the high half of its union.
unfoldable pub keep_some : Value → Value
unfolding keep_type
keep_some v = record v {
  type = keep_type v.type;
  bits = if is_number v.kind then v.bits % 2 ^ 32 else 0;
  str_val = if is_number v.kind then none else if is_text v.kind then v.str_val else none;
}

unfoldable pub keep_value : Option Value → Option Value
unfolding keep_some
keep_value none = none
keep_value (some v) = some (keep_some v)

unfoldable pub keep_inst : Inst → Inst
unfolding keep_value
keep_inst i = record i {
  dest = keep_value i.dest;
  op1 = keep_value i.op1;
  op2 = keep_value i.op2;
  args = map keep_value i.args;
  custom_flag = 0;
}

unfoldable pub keep_block : Block → Block
unfolding keep_inst
keep_block b = record b { id = 0; insts = map keep_inst b.insts }

unfoldable pub keep_param : Param → Param
unfolding keep_type
keep_param p = record p { type = keep_type p.type }

-- A function loses that it is extern or pure; its blocks are counted anew.
unfoldable pub keep_func : Function → Function
unfolding keep_type keep_param keep_block
keep_func fn = record fn {
  ret_type = keep_type fn.ret_type;
  params = map keep_param fn.params;
  blocks = map keep_block fn.blocks;
  block_count = length fn.blocks;
  is_flux = fn.is_flux % 256;
  is_varargs = fn.is_varargs % 256;
  is_extern = 0;
  is_pure = 0;
  reason = none;
}

unfoldable pub keep_field : Field → Field
unfolding keep_type
keep_field fd = record fd { type = keep_type fd.type }

-- A union becomes a struct.
unfoldable pub keep_struct : Struct → Struct
unfolding keep_field
keep_struct st = record st { fields = map keep_field st.fields; is_union = 0 }

unfoldable pub keep_global : Global → Global
unfolding keep_type
keep_global g = record g { type = keep_type g.type }

-- The enums are not written.
unfoldable pub keep_module : Module → Module
unfolding keep_global keep_struct keep_func
keep_module m = record m {
  globals = map keep_global m.globals;
  structs = map keep_struct m.structs;
  functions = map keep_func m.functions;
  enums = [];
  str_counter = 0;
  src = none;
}
