-- ===== src/Optlir/Allocs.antt =====
-- `optlir_dce_allocs` of src/optlir/mem2reg.c: ALLOCA instructions whose temporary is never used, and
-- the stores to them, become FREE_STACK without operands. The keys of the two maps are the decimal
-- texts of temporaries, for which the number stands, as a text of one element.
use alkyl.Prelude.{
  ℕ, ◌≡◌, refl, ◌≢◌, ◌↔◌, ◌⊎◌, inl, inr, Bool, true, false, not, ◌&&◌, ◌||◌, Option, none, some,
  List, [], ◌∷◌, ◌++◌, ◌==◌, arith, if◌then◌else◌, map, Any, All, Str, Bool-cases,
}
use alkyl.Ir.{Value, Inst, Block, Function, Module}
use alkyl.Ir.Op
use alkyl.Ir.Names.{val_temp}
use alkyl.Optlir.UsedSet.{
  UsedSet, Has, Names, has_text, used_set_has, collect_blocks, Has-collect_blocks,
}
pub mod Clean

-- The key of a temporary.
pub temp_key : Option Value → Option Str
temp_key none = none
temp_key (some v) = if v.kind == val_temp then some (v.temp_id ∷ []) else none

pub args_keys : List (Option Value) → List (Option Str)
unfolding temp_key
args_keys [] = []
args_keys (v ∷ vs) = temp_key v ∷ args_keys vs

-- The keys that one instruction puts into `alloc_map` and into `used_map`.
pub alloc_keys : Inst → List (Option Str)
unfolding temp_key
alloc_keys i = if i.op == Op.alloca then temp_key i.dest ∷ [] else []

pub used_keys : Inst → List (Option Str)
unfolding args_keys
used_keys i =
    if i.op == Op.store || i.op == Op.alloca
    then []
    else temp_key i.op1 ∷ temp_key i.op2 ∷ args_keys i.args

-- The maps of a function.
pub alloc_map : List Block → UsedSet
unfolding alloc_keys collect_blocks
alloc_map bs = collect_blocks (λ _. []) alloc_keys [] bs

pub used_map : List Block → UsedSet
unfolding used_keys collect_blocks
used_map bs = collect_blocks (λ _. []) used_keys [] bs

pub is_temp : Option Value → Bool
is_temp none = false
is_temp (some v) = v.kind == val_temp

pub dce_inst : UsedSet → UsedSet → Inst → Inst
unfolding is_temp temp_key used_set_has
dce_inst alloc used i =
    if i.op == Op.alloca && is_temp i.dest
    then if used_set_has used (temp_key i.dest)
      then i
      else record i { op = Op.free_stack; dest = none }
    else if i.op == Op.store && is_temp i.op2
    then if used_set_has alloc (temp_key i.op2) && not (used_set_has used (temp_key i.op2))
      then record i { op = Op.free_stack; op1 = none; op2 = none }
      else i
    else i

pub dce_blocks : UsedSet → UsedSet → List Block → List Block
unfolding dce_inst
dce_blocks alloc used [] = []
dce_blocks alloc used (b ∷ bs) =
    record b { insts = map (dce_inst alloc used) b.insts } ∷ dce_blocks alloc used bs

pub dce_function : Function → Function
unfolding dce_blocks alloc_map used_map
dce_function f = record f { blocks = dce_blocks (alloc_map f.blocks) (used_map f.blocks) f.blocks }

-- The module has a compiler context: the function reads its arena without a test.
pub optlir_dce_allocs : Module → Module
unfolding dce_function
optlir_dce_allocs m = record m { functions = map dce_function m.functions }
