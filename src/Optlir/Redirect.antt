-- ===== src/Optlir/Redirect.antt =====
-- src/optlir/local.c: the targets of jumps and branches are moved from one label to another.
use alkyl.Prelude.{
  ℕ, Bool, true, false, Option, none, some, List, [], ◌∷◌, ◌==◌, if◌then◌else◌, map, Str, same_text,
}
use alkyl.Ir.{Value, Inst, Block, Function}
use alkyl.Ir.Op
use alkyl.Optlir.Reach.{label_text}
use alkyl.Optlir.Branches.{alir_val_label}
pub mod Targets

pub text_is : Option Str → Str → Bool
text_is none label = false
text_is (some s) label = same_text s label

-- A value, moved if it is the old label.
pub redirect_value : Str → Str → Option Value → Option Value
unfolding text_is label_text
redirect_value old_label new_label o =
    if text_is (label_text o) old_label then some (alir_val_label new_label) else o

pub redirect_first : Str → Str → List (Option Value) → List (Option Value)
redirect_first old_label new_label [] = []
redirect_first old_label new_label (v ∷ vs) = redirect_value old_label new_label v ∷ vs

pub redirect_inst : Str → Str → Inst → Inst
redirect_inst old_label new_label i =
    if i.op == Op.jump
    then record i { op1 = redirect_value old_label new_label i.op1 }
    else if i.op == Op.condi
    then record i {
      op2 = redirect_value old_label new_label i.op2;
      args = redirect_first old_label new_label i.args;
    }
    else i

-- Nothing is done where one of the labels is NULL or they are the same.
pub redirect_label_to : Option Str → Option Str → Block → Block
redirect_label_to none new_label b = b
redirect_label_to (some old) none b = b
redirect_label_to (some old) (some new) b =
    if same_text old new then b else record b { insts = map (redirect_inst old new) b.insts }

pub redirect_label_in_all_blocks : Option Str → Option Str → Function → Function
redirect_label_in_all_blocks old_label new_label f = record f {
  blocks = map (redirect_label_to old_label new_label) f.blocks;
}
