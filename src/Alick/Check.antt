-- ===== src/Alick/Check.antt =====
-- src/alick/cfg.c, src/alick/type.c and `is_terminator` of src/alir/generator.c.
use alkyl.Prelude.{
  ℕ, Bool, true, false, ◌||◌, not, Option, none, some, List, [], ◌∷◌, ◌++◌, ◌==◌, if◌then◌else◌,
  Str, Run, ok, fault, bind, null_deref,
}
use alkyl.Ir.{Value, Inst, Block, Function}
use alkyl.Ir.Op
use alkyl.Ir.Names.{val_label, type_unknown}
use alkyl.Alick.Labels.{streq_lit}
use alkyl.Alick.Report.{
  Problem, report, empty_block, no_terminator, early_terminator, jump_not_label, jump_unknown,
  true_branch_not_label, true_branch_unknown, false_branch_not_label, false_branch_unknown, no_dest,
  no_op1, no_op2, no_operands, untyped_op1, untyped_op2,
}
pub mod Flow
pub mod Operands

pub is_terminator : ℕ → Bool
is_terminator op = op == Op.ret || op == Op.jump || op == Op.condi || op == Op.panic

-- Whether `find_block` finds a block of this label.
pub find_block : List Block → Option Str → Bool
find_block [] label = false
find_block (b ∷ bs) label = streq_lit b.label label || find_block bs label

-- The test of one branch target: a label, and the label of a block.
pub check_target : Function → Option Value → Problem → Problem → List Problem
check_target f none not_label unknown = not_label ∷ []
check_target f (some v) not_label unknown =
    if not (v.kind == val_label)
    then not_label ∷ []
    else report (not (find_block f.blocks v.str_val)) unknown

-- `args[0]`, or NULL
abbrev pub first_arg : List (Option Value) → Option Value
first_arg [] = none
first_arg (v ∷ vs) = v

-- The targets of a block's last instruction.
pub check_branches : Function → Inst → List Problem
check_branches f term =
    if term.op == Op.jump
    then check_target f term.op1 jump_not_label jump_unknown
    else if term.op == Op.condi
    then check_target f term.op2 true_branch_not_label true_branch_unknown
      ++ check_target f (first_arg term.args) false_branch_not_label false_branch_unknown
    else []

-- The last of `i ∷ is`, which `b->tail` points to, and the instructions before it.
pub last_of : Inst → List Inst → Inst
last_of i [] = i
last_of i (j ∷ is) = last_of j is

pub front_of : Inst → List Inst → List Inst
front_of i [] = []
front_of i (j ∷ is) = i ∷ front_of j is

pub check_early : List Inst → List Problem
check_early [] = []
check_early (i ∷ is) = report (is_terminator i.op) early_terminator ++ check_early is

check_flow_of : Function → Inst → List Inst → List Problem
check_flow_of f i is =
    let term = last_of i is in
    report (not (is_terminator term.op)) no_terminator
    ++ (check_branches f term ++ check_early (front_of i is))

pub check_flow : Function → List Inst → List Problem
unfolding check_flow_of
check_flow f [] = empty_block ∷ []
check_flow f (i ∷ is) = check_flow_of f i is

cfg_blocks : Function → List Block → List Problem
cfg_blocks f [] = []
cfg_blocks f (b ∷ bs) = check_flow f b.insts ++ cfg_blocks f bs

pub alick_check_cfg : Function → List Problem
unfolding cfg_blocks
alick_check_cfg f = cfg_blocks f f.blocks

abbrev pub is_null : Option Value → Bool
is_null none = true
is_null (some v) = false

-- `v->type.base == TYPE_UNKNOWN`, a read through `v`
pub check_typed : Option Value → Problem → Run (List Problem)
check_typed none p = fault null_deref
check_typed (some v) p = ok (report (v.type.base == type_unknown) p)

-- The cases of the `switch` that share their tests.
pub is_binary : ℕ → Bool
is_binary op =
    op == Op.add
    || op == Op.sub
    || op == Op.mul
    || op == Op.div
    || op == Op.modulo
    || op == Op.fadd
    || op == Op.fsub
    || op == Op.fmul
    || op == Op.fdiv
    || op == Op.and
    || op == Op.or
    || op == Op.xor
    || op == Op.shl
    || op == Op.shr
    || op == Op.lt
    || op == Op.gt
    || op == Op.lte
    || op == Op.gte
    || op == Op.eq
    || op == Op.neq

pub is_unary : ℕ → Bool
is_unary op = op == Op.not || op == Op.cast || op == Op.bitcast

-- The errors of GET_PTR are reported before the operand is read.
pub check_get_ptr : Inst → Run (List Problem)
check_get_ptr i = bind (check_typed i.op1 untyped_op1) λ first.
    bind (check_typed i.op2 untyped_op2) λ second. ok (
      report (is_null i.dest) no_dest
      ++ (report (is_null i.op1) no_op1 ++ (first ++ (report (is_null i.op2) no_op2 ++ second))))

pub check_operands : Inst → Run (List Problem)
check_operands i =
    if i.op == Op.store
    then ok (report (is_null i.op1) no_op1 ++ report (is_null i.op2) no_op2)
    else if i.op == Op.load
    then ok (report (is_null i.dest) no_dest ++ report (is_null i.op1) no_op1)
    else if i.op == Op.get_ptr
    then check_get_ptr i
    else if i.op == Op.alloca
    then ok (report (is_null i.dest) no_dest)
    else if is_binary i.op
    then ok (report (is_null i.dest) no_dest ++ report (is_null i.op1 || is_null i.op2) no_operands)
    else if is_unary i.op
    then ok (report (is_null i.dest) no_dest ++ report (is_null i.op1) no_op1)
    else if i.op == Op.call
    then ok (report (is_null i.op1) no_op1)
    else ok []

pub type_insts : List Inst → Run (List Problem)
type_insts [] = ok []
type_insts (i ∷ is) = bind (check_operands i) λ ps. bind (type_insts is) λ qs. ok (ps ++ qs)

type_blocks : List Block → Run (List Problem)
type_blocks [] = ok []
type_blocks (b ∷ bs) = bind (type_insts b.insts) λ ps. bind (type_blocks bs) λ qs. ok (ps ++ qs)

pub alick_check_types : Function → Run (List Problem)
unfolding type_blocks
alick_check_types f = type_blocks f.blocks
