-- ===== src/Alick/Report.antt =====
-- What the checker of src/alick/ reports: one name for each message.
use alkyl.Prelude.{Bool, List, [], ◌∷◌, if◌then◌else◌}

pub data Problem : Type 0 where
  empty_block no_terminator early_terminator : Problem
  jump_not_label jump_unknown : Problem
  true_branch_not_label true_branch_unknown : Problem
  false_branch_not_label false_branch_unknown : Problem
  no_dest no_op1 no_op2 no_operands untyped_op1 untyped_op2 : Problem
  use_after_free double_free : Problem

abbrev pub report : Bool → Problem → List Problem
report bad p = if bad then p ∷ [] else []
