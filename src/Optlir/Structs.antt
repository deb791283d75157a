-- ===== src/Optlir/Structs.antt =====
-- The removal of structs of src/optlir/unused.c: the class types that a module mentions, their closure
-- under the fields of used structs, and the structs that stay.
use alkyl.Prelude.{
  ℕ, zero, suc, Bool, true, false, ◌||◌, Option, none, some, List, [], ◌∷◌, ◌++◌, ◌==◌,
  if◌then◌else◌, length, Str, Run, Fault, ok, fault, bind,
}
use alkyl.Ir.{VarType, Value, Inst, Block, Param, Function, Field, Struct, Global, Module}
use alkyl.Ir.Names.{type_class}
use alkyl.Optlir.UsedSet.{UsedSet, used_set_has, used_set_add, add_all, collect_functions}
pub mod Closure
pub mod Progress
pub mod Sound
pub mod Closed
pub mod Needed

-- The name that a type adds to the used structs.
pub type_name : VarType → Option Str
type_name t = if t.base == type_class then t.class_name else none

value_type_name : Option Value → Option Str
value_type_name none = none
value_type_name (some v) = type_name v.type

values_type_names : List (Option Value) → List (Option Str)
unfolding value_type_name
values_type_names [] = []
values_type_names (v ∷ vs) = value_type_name v ∷ values_type_names vs

pub inst_type_names : Inst → List (Option Str)
unfolding values_type_names
inst_type_names i = values_type_names (i.dest ∷ i.op1 ∷ i.op2 ∷ i.args)

param_type_names : List Param → List (Option Str)
unfolding type_name
param_type_names [] = []
param_type_names (p ∷ ps) = type_name p.type ∷ param_type_names ps

pub signature_type_names : Function → List (Option Str)
unfolding param_type_names
signature_type_names f = type_name f.ret_type ∷ param_type_names f.params

pub global_type_names : List Global → List (Option Str)
unfolding type_name
global_type_names [] = []
global_type_names (g ∷ gs) = type_name g.type ∷ global_type_names gs

-- The set before the closure.
pub mentioned_structs : Module → UsedSet
unfolding inst_type_names signature_type_names global_type_names collect_functions
mentioned_structs m =
    collect_functions signature_type_names inst_type_names
      (add_all [] (global_type_names m.globals)) m.functions

-- `strrchr(name, '.') + 1`.
pub suffix : Str → Option Str
suffix [] = none
suffix (c ∷ s) = elim (suffix s) [ some t ↦ some t | none ↦ if c == 46 then some s else none ]

-- For a struct without a name, `strrchr` reads through NULL.
pub is_struct_used : UsedSet → Option Str → Run Bool
unfolding suffix used_set_has
is_struct_used set none = fault Fault.null_deref
is_struct_used set (some s) = ok (used_set_has set (some s) || used_set_has set (suffix s))

-- The used structs and the flag `changed`.
pub record Round : Type 0 where
  pub set : UsedSet
  pub changed : Bool

pub mark_name : Round → Option Str → Round
unfolding used_set_has
mark_name r none = r
mark_name r (some n) =
    if used_set_has r.set (some n)
    then r
    else record { set = used_set_add r.set (some n); changed = true }

pub mark_fields : Round → List Field → Round
unfolding mark_name type_name
mark_fields r [] = r
mark_fields r (f ∷ fs) = mark_fields (mark_name r (type_name f.type)) fs

-- One pass over the structs.
pub mark_structs : Round → List Struct → Run Round
unfolding is_struct_used mark_fields
mark_structs r [] = ok r
mark_structs r (st ∷ sts) =
    bind (is_struct_used r.set st.name)
      (λ used. mark_structs (if used then mark_fields r st.fields else r) sts)

-- The loop `do ... while (changed)`, on fuel; `none` when that runs out.
pub close_structs : ℕ → List Struct → UsedSet → Run (Option UsedSet)
unfolding mark_structs
close_structs zero sts set = ok none
close_structs (suc k) sts set =
    bind (mark_structs (record { set = set; changed = false }) sts)
      (λ r. let rest = close_structs k sts r.set in if r.changed then rest else ok (some r.set))

pub field_names : List Field → List (Option Str)
unfolding type_name
field_names [] = []
field_names (f ∷ fs) = type_name f.type ∷ field_names fs

pub struct_field_names : List Struct → List (Option Str)
unfolding field_names
struct_field_names [] = []
struct_field_names (st ∷ sts) = field_names st.fields ++ struct_field_names sts

pub collect_used_structs : Module → Run (Option UsedSet)
unfolding mentioned_structs close_structs struct_field_names
collect_used_structs m =
    close_structs (suc (length (struct_field_names m.structs))) m.structs (mentioned_structs m)

-- The structs that the set has, in their order.
pub keep_structs : UsedSet → List Struct → Run (List Struct)
unfolding is_struct_used
keep_structs set [] = ok []
keep_structs set (st ∷ sts) =
    bind (is_struct_used set st.name)
      (λ used. bind (keep_structs set sts) (λ rest. ok (if used then st ∷ rest else rest)))

keep_used : Module → Option UsedSet → Run (Option Module)
unfolding keep_structs
keep_used m none = ok none
keep_used m (some set) =
    bind (keep_structs set m.structs) (λ sts. ok (some (record m { structs = sts })))

pub optlir_remove_unused_struct : Module → Run (Option Module)
unfolding collect_used_structs keep_used
optlir_remove_unused_struct m = bind (collect_used_structs m) (keep_used m)
