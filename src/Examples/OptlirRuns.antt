-- ===== src/Examples/OptlirRuns.antt =====
-- src/optlir/unused.c at a program of three functions, three structs and two globals.
use alkyl.Prelude.{
  Any, ap, ◌≢◌, ◌↔◌, length, SieveFrom, Both, arith, ◌<◌, ◌^◌, ℕ, ◌≡◌, refl, Option, none, some,
  List, [], ◌∷◌, Str, Run, ok, All, Sieve, map,
}
use alkyl.Ir.{VarType, Value, Function, Field, Struct, Module}
use alkyl.Ir.Op
use alkyl.Ir.Names.{val_var, val_global, type_class}
use alkyl.Optlir.UsedSet.{has_text, used_set_has, used_set_add}
use alkyl.Optlir.Calls.{main_name, optlir_remove_unused_function}
use alkyl.Optlir.Calls.Kept.{IsUsed, optlir_remove_unused_function-Sieve}
use alkyl.Optlir.Globals.{
  IsUsedGlobal, optlir_remove_unused_variable, optlir_remove_unused_variable-Sieve,
}
use alkyl.Optlir.Structs.{optlir_remove_unused_struct}
use alkyl.Optlir.Structs.Closure.{IsNamed}
use alkyl.Optlir.Structs.Sound.{Covers}
use alkyl.Optlir.Structs.Needed.{Needs, optlir_remove_unused_struct-Sieve}
use alkyl.Optlir.Unused.{optlir_remove_unused, optlir_remove_unused-Sieve}
use alkyl.Optlir.Reach.{remove_unreachable_blocks_function}
use alkyl.Optlir.Reach.Kept.{Reaches, remove_unreachable_blocks_function-SieveFrom}
use alkyl.Optlir.Branches.{fold_branches_function}
use alkyl.Optlir.Branches.Folds.{FoldedBlock, fold_branches_function-Both}
use alkyl.Optlir.Reach.Edges.{GoesTo}
use alkyl.Optlir.Redirect.{redirect_label_to}
use alkyl.Optlir.Redirect.Targets.{Moved, redirect_label_to-Moved}
use alkyl.Optlir.Allocs.{optlir_dce_allocs}
use alkyl.Optlir.Allocs.Clean.{CleansBlock, optlir_dce_allocs-Both}
use alkyl.Examples.Samples.{
  entry, exit, int_type, constant, instruction, temporary, l1, l2, f_name, function_of, module_of,
  sample,
}

abbrev class_named : Str → VarType
class_named s = record int_type { base = type_class; class_name = some s }

abbrev text_value : ℕ → Str → Value
text_value k s = record (constant 0) { kind = k; str_val = some s }

-- The text "g".
abbrev g_name : Str
g_name = 103 ∷ []

-- `main` calls the flux `f` with the global `L1`; nothing calls `g`.
abbrev main_function : Function
main_function =
    record (function_of (
      record {
        id = 0;
        label = some l1;
        insts =
            instruction Op.call none (some (text_value val_var f_name)) none
              (some (text_value val_global l1) ∷ [])
            ∷ instruction Op.ret none (some (constant 0)) none []
            ∷ [];
      }
      ∷ [])) { name = some main_name }

abbrev flux : Function
flux = record sample { is_flux = 1 }

abbrev unused : Function
unused = record sample { name = some g_name }

-- The struct `x.L1` has a field of the class `L2`; nothing needs `g`.
abbrev struct_of : Str → List Field → Struct
struct_of s fields = record { name = some s; fields = fields; field_count = 1; is_union = 0 }

abbrev program : Module
program = record (module_of sample) {
  functions = main_function ∷ flux ∷ unused ∷ [];
  structs =
      struct_of (120 ∷ 46 ∷ l1)
        (record { name = some f_name; type = class_named l2; index = 0 } ∷ [])
      ∷ struct_of g_name []
      ∷ struct_of l2 []
      ∷ [];
  globals =
      record { name = some l1; string_content = none; type = class_named l1 }
      ∷ record { name = some l2; string_content = none; type = int_type }
      ∷ [];
}

abbrev program-IsNamed : All IsNamed program.structs
program-IsNamed = ((120 ∷ 46 ∷ l1, refl), ((g_name, refl), ((l2, refl), tt)))

optlir_remove_unused_function-Sieve_example :
    Sieve
      (λ f. IsUsed program f.name)
      program.functions
      (optlir_remove_unused_function program).functions
optlir_remove_unused_function-Sieve_example = optlir_remove_unused_function-Sieve program

optlir_remove_unused_variable-Sieve_example :
    Sieve
      (λ g. IsUsedGlobal program g.name)
      program.globals
      (optlir_remove_unused_variable program).globals
optlir_remove_unused_variable-Sieve_example = optlir_remove_unused_variable-Sieve program

optlir_remove_unused_struct-Sieve_example :
    (sts : List Struct) × (optlir_remove_unused_struct program
      ≡ ok (some (record program { structs = sts })))
    × Sieve (λ st. Covers (Needs program) st.name) program.structs sts
optlir_remove_unused_struct-Sieve_example =
    optlir_remove_unused_struct-Sieve program program-IsNamed

optlir_remove_unused-Sieve_example :
    (m1 : Module) × (optlir_remove_unused program ≡ ok (some m1))
    × Sieve (λ f. IsUsed program f.name) program.functions m1.functions
    × Sieve
        (λ st. Covers (Needs (optlir_remove_unused_function program)) st.name)
        program.structs
        m1.structs
    × Sieve
        (λ g. IsUsedGlobal (optlir_remove_unused_function program) g.name)
        program.globals
        m1.globals
optlir_remove_unused-Sieve_example = optlir_remove_unused-Sieve program program-IsNamed

-- In `sample` with a block that nothing jumps to, the search drops that block.
abbrev isolated : Function
isolated =
    record (function_of (entry ∷ exit ∷ record { id = 2; label = some g_name; insts = [] } ∷ [])) {
      block_count = 3;
    }

remove_unreachable_blocks_function-SieveFrom_example :
    (g : Function) × (remove_unreachable_blocks_function isolated ≡ some g)
    × SieveFrom (Reaches isolated.blocks) 0 isolated.blocks g.blocks
    × (g.block_count ≡ length g.blocks)
remove_unreachable_blocks_function-SieveFrom_example =
    remove_unreachable_blocks_function-SieveFrom isolated refl (omega arith)

-- The only branch of `sample` is on a constant; `widen` stands for the conversion of a `float`.
abbrev widen : ℕ → ℕ
widen n = n

fold_branches_function-Both_example :
    Both FoldedBlock sample.blocks (fold_branches_function widen sample).blocks
fold_branches_function-Both_example = fold_branches_function-Both widen sample

-- A function with a slot that is only stored to.
abbrev with_dead_slot : Function
with_dead_slot = function_of (
    record {
      id = 0;
      label = some l1;
      insts =
          instruction Op.alloca (some (temporary 5)) none none []
          ∷ instruction Op.store none (some (constant 7)) (some (temporary 5)) []
          ∷ instruction Op.ret none (some (constant 0)) none []
          ∷ [];
    }
    ∷ [])

optlir_dce_allocs-Both_example :
    Both
      (λ f g. Both (CleansBlock f.blocks) f.blocks g.blocks)
      (with_dead_slot ∷ sample ∷ [])
      (optlir_dce_allocs (record program { functions = with_dead_slot ∷ sample ∷ [] })).functions
optlir_dce_allocs-Both_example =
    optlir_dce_allocs-Both (record program { functions = with_dead_slot ∷ sample ∷ [] })

l2-g_name : l2 ≢ g_name
l2-g_name e = absurd (omega (arith, ap length e))

-- The first block of `sample`, which goes to `L2`, moved from `L2` to `g`.
redirect_label_to-Moved_example :
    Any (λ i. GoesTo i g_name) (redirect_label_to (some l2) (some g_name) entry).insts
    ↔ Moved (λ s. Any (λ i. GoesTo i s) entry.insts) l2 g_name g_name
redirect_label_to-Moved_example = redirect_label_to-Moved l2 g_name g_name entry l2-g_name

-- A run: the flux and `main` stay.
remove_unused_function_run :
    (optlir_remove_unused_function program).functions ≡ main_function ∷ flux ∷ []
unfolding optlir_remove_unused_function has_text alkyl.Optlir.UsedSet.collect_blocks
    alkyl.Optlir.UsedSet.collect_insts alkyl.Prelude.same_text
remove_unused_function_run = refl
