-- ===== src/Optlir/Branches.antt =====
-- src/optlir/local.c: branches on constants become jumps.
use alkyl.Prelude.{
  ℕ, ◌%◌, ◌^◌, Bool, true, false, not, ◌&&◌, ◌||◌, Option, none, some, List, [], ◌∷◌, ◌==◌,
  if◌then◌else◌, map, Str,
}
use alkyl.Ir.{VarType, Value, Inst, Block, Function}
use alkyl.Ir.Op
use alkyl.Ir.Names.{val_const, val_label, type_single, type_double}
use alkyl.Optlir.Reach.{first_arg, is_some}
pub mod Edges
pub mod Folds

-- `double_val` is a bit pattern.
pub record ConstVal : Type 0 where
  pub int_val : ℕ
  pub double_val : ℕ
  pub is_const : Bool
  pub is_float : Bool

abbrev pub zero_const : ConstVal
zero_const = record { int_val = 0; double_val = 0; is_const = false; is_float = false }

-- A constant of a floating point type; `widen` is the conversion of a `float` to a `double`.
float_const : (ℕ → ℕ) → Value → ConstVal
float_const widen v = record {
  int_val = 0;
  double_val = if v.type.base == type_single then widen (v.bits % 2 ^ 32) else v.bits;
  is_const = true;
  is_float = true;
}

unfoldable pub is_float_type : VarType → Bool
is_float_type t = t.base == type_single || t.base == type_double

pub get_const_for_value : (ℕ → ℕ) → Option Value → ConstVal
unfolding float_const is_float_type
get_const_for_value widen none = zero_const
get_const_for_value widen (some v) =
    if v.kind == val_const
    then if is_float_type v.type
      then float_const widen v
      else record { int_val = v.bits; double_val = 0; is_const = true; is_float = false }
    else zero_const

-- The text of a value of any kind.
pub value_text : Option Value → Option Str
value_text none = none
value_text (some v) = v.str_val

pub target_label : ConstVal → Inst → Option Str
unfolding value_text first_arg is_some
target_label cond i =
    if not (cond.int_val == 0) && is_some i.op2
    then value_text i.op2
    else if cond.int_val == 0
    then value_text (first_arg i.args)
    else none

-- A value whose memory was cleared, with a label in it.
unfoldable pub alir_val_label : Str → Value
alir_val_label label = record {
  kind = val_label;
  type = record {
    base = 0;
    ptr_depth = 0;
    class_name = none;
    array_size = 0;
    array_depth = 0;
    fp_param_count = 0;
    is_unsigned = false;
    is_func_ptr = false;
    fp_is_varargs = false;
    is_tainted = false;
    is_pristine = false;
  };
  temp_id = 0;
  bits = 0;
  str_val = some label;
}

pub jump_to : Inst → Option Str → Inst
unfolding alir_val_label
jump_to i none = i
jump_to i (some label) = record i {
  op = Op.jump;
  op1 = some (alir_val_label label);
  op2 = none;
  args = [];
}

pub fold_inst : (ℕ → ℕ) → Inst → Inst
unfolding get_const_for_value target_label jump_to
fold_inst widen i =
    let cond = get_const_for_value widen i.op1 in
    if i.op == Op.condi && (is_some i.op1 && cond.is_const)
    then jump_to i (target_label cond i)
    else i

pub fold_blocks : (ℕ → ℕ) → List Block → List Block
unfolding fold_inst
fold_blocks widen [] = []
fold_blocks widen (b ∷ bs) =
    record b { insts = map (fold_inst widen) b.insts } ∷ fold_blocks widen bs

pub fold_branches_function : (ℕ → ℕ) → Function → Function
unfolding fold_blocks
fold_branches_function widen f = record f { blocks = fold_blocks widen f.blocks }
