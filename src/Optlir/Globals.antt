-- ===== src/Optlir/Globals.antt =====
-- The removal of globals of src/optlir/unused.c: the names that instructions use, and the globals that
-- stay.
use alkyl.Prelude.{
  ◌≡◌, ◌↔◌, ◌⊎◌, true, Option, none, some, List, [], ◌∷◌, ◌++◌, ◌==◌, arith, if◌then◌else◌, Any,
  Sieve, keep_if, keep_if-Sieve, Str,
}
use alkyl.Ir.{Value, Inst, Module}
use alkyl.Ir.Op
use alkyl.Ir.Names.{val_global}
use alkyl.Optlir.UsedSet.{
  UsedSet, Names, has_text, used_set_has, collect_functions, Has-collect_functions, Mentioned-iff,
  Names-append,
}
use alkyl.Optlir.Calls.{text_of}
use alkyl.Optlir.Calls.Kept.{HasText, text_of_iff}

args_names : List (Option Value) → List (Option Str)
args_names [] = []
args_names (v ∷ vs) = text_of val_global v ∷ args_names vs

callee_names : Inst → List (Option Str)
callee_names i = if i.op == Op.call then text_of val_global i.op1 ∷ [] else []

-- The names that one instruction adds to the used globals.
global_names : Inst → List (Option Str)
unfolding args_names callee_names
global_names i =
    text_of val_global i.op1 ∷ text_of val_global i.op2 ∷ (callee_names i ++ args_names i.args)

unfoldable pub collect_used_globals : Module → UsedSet
unfolding global_names collect_functions
collect_used_globals m = collect_functions (λ _. []) global_names [] m.functions

unfoldable pub optlir_remove_unused_variable : Module → Module
unfolding collect_used_globals used_set_has
optlir_remove_unused_variable m = record m {
  globals = keep_if (λ g. used_set_has (collect_used_globals m) g.name) m.globals;
}

-- The instruction has a value that is the global `n`.
abbrev pub Uses : Str → Inst → Type 0
Uses n i =
    HasText val_global i.op1 n
    ⊎ (HasText val_global i.op2 n ⊎ Any (λ v. HasText val_global v n) i.args)

-- Some instruction of the module has a value that is the global of this name.
abbrev pub IsUsedGlobal : Module → Option Str → Type 0
IsUsedGlobal m none = ⊥
IsUsedGlobal m (some n) = Any (λ f. Any (λ b. Any (Uses n) b.insts) f.blocks) m.functions

Names-args_names :
    (n : Str) (vs : List (Option Value))
    → Names n (args_names vs) ↔ Any (λ v. HasText val_global v n) vs
unfolding args_names
Names-args_names n [] = (λ e. e, λ e. e)
Names-args_names n (v ∷ vs) = ground (arith, text_of_iff val_global v n, Names-args_names n vs)

Names-callee_names : (n : Str) (i : Inst) → Names n (callee_names i) → HasText val_global i.op1 n
unfolding callee_names
Names-callee_names n i h = ground (arith, text_of_iff val_global i.op1 n)

Names-global_names : (n : Str) (i : Inst) → Names n (global_names i) ↔ Uses n i
unfolding global_names
Names-global_names n i = ground (
  arith,
  text_of_iff val_global i.op1 n,
  text_of_iff val_global i.op2 n,
  Names-append n (callee_names i) (args_names i.args),
  Names-callee_names n i,
  Names-args_names n i.args,
)

collect_used_globals_lem :
    (m : Module) (name : Option Str)
    → (used_set_has (collect_used_globals m) name ≡ true) ↔ IsUsedGlobal m name
unfolding collect_used_globals used_set_has has_text
collect_used_globals_lem m none = (λ e. cc, λ e. absurd e)
collect_used_globals_lem m (some n) = ground (
  arith,
  Has-collect_functions (λ _. []) global_names [] m.functions n,
  Mentioned-iff global_names (Uses n) n (Names-global_names n) m.functions,
)

-- The globals that `optlir_remove_unused_variable` keeps are, in their order, just those that some
-- instruction of the module has as an operand or an argument.
pub optlir_remove_unused_variable-Sieve :
    (m : Module)
    → Sieve (λ g. IsUsedGlobal m g.name) m.globals (optlir_remove_unused_variable m).globals
unfolding optlir_remove_unused_variable
optlir_remove_unused_variable-Sieve m =
    keep_if-Sieve (λ g. used_set_has (collect_used_globals m) g.name)
      (λ g. collect_used_globals_lem m g.name) m.globals
