-- ===== src/Optlir/Unused.antt =====
-- src/optlir/unused.c: `optlir_remove_unused`, the three removals one after the other.
use alkyl.Prelude.{◌≡◌, Option, none, some, All, Sieve, Run, ok, bind}
use alkyl.Ir.{Module}
use alkyl.Optlir.Calls.{optlir_remove_unused_function}
use alkyl.Optlir.Calls.Kept.{IsUsed, optlir_remove_unused_function-Sieve}
use alkyl.Optlir.Globals.{
  IsUsedGlobal, optlir_remove_unused_variable, optlir_remove_unused_variable-Sieve,
}
use alkyl.Optlir.Structs.{optlir_remove_unused_struct}
use alkyl.Optlir.Structs.Closure.{IsNamed}
use alkyl.Optlir.Structs.Sound.{Covers}
use alkyl.Optlir.Structs.Needed.{Needs, optlir_remove_unused_struct-Sieve}

-- The last of the three.
remove_variables : Option Module → Option Module
remove_variables none = none
remove_variables (some m) = some (optlir_remove_unused_variable m)

pub optlir_remove_unused : Module → Run (Option Module)
unfolding remove_variables
optlir_remove_unused m =
    bind (optlir_remove_unused_struct (optlir_remove_unused_function m))
      (λ r. ok (remove_variables r))

-- In a module whose structs have names, `optlir_remove_unused` ends without a fault. It keeps, in
-- their order, just the functions that are "main" or are marked by a function that some instruction
-- of the module refers to, and then just the structs that those functions, the globals and the
-- kept structs need, and just the globals that those functions use. An instruction refers to what it
-- calls, and of what it stores to a global name and to a variable's name that does not begin with 'p'
-- or a digit.
pub optlir_remove_unused-Sieve :
    (m : Module) (named : All IsNamed m.structs)
    → (m1 : Module) × (optlir_remove_unused m ≡ ok (some m1))
      × Sieve (λ f. IsUsed m f.name) m.functions m1.functions
      × Sieve (λ st. Covers (Needs (optlir_remove_unused_function m)) st.name) m.structs m1.structs
      × Sieve (λ g. IsUsedGlobal (optlir_remove_unused_function m) g.name) m.globals m1.globals
unfolding optlir_remove_unused optlir_remove_unused_function optlir_remove_unused_variable
optlir_remove_unused-Sieve m named =
    let pruned = optlir_remove_unused_function m in
    let structs = optlir_remove_unused_struct-Sieve pruned named in
    let last : Module = record pruned { structs = structs.0 } in
    (
      optlir_remove_unused_variable last,
      rw structs.1,
      optlir_remove_unused_function-Sieve m,
      structs.2,
      optlir_remove_unused_variable-Sieve last,
    )
