-- ===== src/Examples/Samples.antt =====
-- A module of one global and one function, `f`, which branches on a constant and returns.
use alkyl.Prelude.{ℕ, false, Option, none, some, List, [], ◌∷◌, Str}
use alkyl.Ir.{VarType, Value, Inst, Block, Function, Module}
use alkyl.Ir.Op
use alkyl.Ir.Names.{val_temp, val_label, val_const}

abbrev pub int_type : VarType
int_type = record {
  base = 1;
  ptr_depth = 0;
  class_name = none;
  array_size = 0;
  array_depth = 0;
  fp_param_count = 0;
  is_unsigned = false;
  is_func_ptr = false;
  fp_is_varargs = false;
  is_tainted = false;
  is_pristine = false;
}

abbrev pub constant : ℕ → Value
constant n = record { kind = val_const; type = int_type; temp_id = 0; bits = n; str_val = none }

abbrev pub temporary : ℕ → Value
temporary n = record { kind = val_temp; type = int_type; temp_id = n; bits = 0; str_val = none }

abbrev pub label_of : Str → Value
label_of s = record { kind = val_label; type = int_type; temp_id = 0; bits = 0; str_val = some s }

abbrev pub instruction : ℕ → Option Value → Option Value → Option Value → List (Option Value) → Inst
instruction op dest op1 op2 args = record {
  op = op;
  dest = dest;
  op1 = op1;
  op2 = op2;
  args = args;
  custom_flag = 0;
  line = 3;
  col = 300;
}

-- The texts "L1", "L2" and "f".
abbrev pub l1 : Str
l1 = 76 ∷ 49 ∷ []

abbrev pub l2 : Str
l2 = 76 ∷ 50 ∷ []

abbrev pub f_name : Str
f_name = 102 ∷ []

abbrev pub entry : Block
entry = record {
  id = 0;
  label = some l1;
  insts =
      instruction Op.alloca (some (temporary 1)) none none []
      ∷ instruction Op.store none (some (constant 7)) (some (temporary 1)) []
      ∷ instruction Op.condi none (some (constant 1)) (some (label_of l2)) (some (label_of l2) ∷ [])
      ∷ [];
}

abbrev pub exit : Block
exit = record {
  id = 1;
  label = some l2;
  insts =
      instruction Op.free_stack none (some (temporary 1)) none []
      ∷ instruction Op.ret none (some (constant 0)) none []
      ∷ [];
}

abbrev pub function_of : List Block → Function
function_of blocks = record {
  name = some f_name;
  ret_type = int_type;
  params = record { name = some f_name; type = int_type } ∷ [];
  param_count = 1;
  blocks = blocks;
  block_count = 2;
  is_flux = 0;
  is_varargs = 0;
  is_extern = 0;
  is_pure = 1;
  reason = none;
  cconv = none;
}

abbrev pub sample : Function
sample = function_of (entry ∷ exit ∷ [])

abbrev pub module_of : Function → Module
module_of f = record {
  name = some f_name;
  globals = record { name = some l1; string_content = some l2; type = int_type } ∷ [];
  functions = f ∷ [];
  structs =
      record {
        name = some f_name;
        fields = record { name = some l1; type = int_type; index = 0 } ∷ [];
        field_count = 1;
        is_union = 1;
      }
      ∷ [];
  enums = [];
  str_counter = 4;
  src = none;
  filename = none;
}

abbrev pub sample_module : Module
sample_module = module_of sample
