-- ===== src/Optlir/Calls.antt =====
-- The removal of functions of src/optlir/unused.c: the names that are called or stored, the functions
-- that count as used, and the removal of the others.
use alkyl.Prelude.{
  ℕ, ◌≡◌, refl, ◌≢◌, ◌≤◌, ◌↔◌, ◌⊎◌, inl, inr, Bool, true, false, not, ◌&&◌, ◌||◌, Option, none,
  some, List, [], ◌∷◌, ◌++◌, ◌==◌, leb, arith, if◌then◌else◌, Any, Any-iff, Sieve, keep_if,
  keep_if-Sieve, Str, take, Option-cases, Bool-cases,
}
use alkyl.Ir.{Value, Inst, Block, Function, Module}
use alkyl.Ir.Op
use alkyl.Ir.Names.{val_var, val_global}
use alkyl.Optlir.UsedSet.{
  UsedSet, Has, Names, Mentioned, used_set_has, used_set_add, add_all, collect_functions,
}
pub mod Kept

-- The text of a value of the given kind.
unfoldable pub text_of : ℕ → Option Value → Option Str
text_of k none = none
text_of k (some v) = if v.kind == k then v.str_val else none

-- The name of a stored local is not a function's when it begins with 'p' or a digit.
unfoldable pub is_local_name : Str → Bool
is_local_name [] = false
is_local_name (c ∷ s) = c == 112 || leb 48 c && leb c 57

unfoldable pub stored_text : Option Str → Option Str
unfolding is_local_name
stored_text none = none
stored_text (some s) = if is_local_name s then none else some s

-- The names that one instruction adds to the called functions.
unfoldable pub called_names : Inst → List (Option Str)
unfolding text_of stored_text
called_names i =
    if i.op == Op.call
    then text_of val_var i.op1 ∷ text_of val_global i.op1 ∷ []
    else if i.op == Op.store
    then stored_text (text_of val_var i.op1) ∷ text_of val_global i.op1 ∷ []
    else []

unfoldable pub collect_called_functions : Module → UsedSet
unfolding called_names collect_functions
collect_called_functions m = collect_functions (λ _. []) called_names [] m.functions

-- The text "main".
abbrev pub main_name : Str
main_name = 109 ∷ 97 ∷ 105 ∷ 110 ∷ []

-- The text "<name>_Resume" in a buffer of 512 bytes.
unfoldable pub resume_name : Str → Str
resume_name s = take 511 (s ++ 95 ∷ 82 ∷ 101 ∷ 115 ∷ 117 ∷ 109 ∷ 101 ∷ [])

-- The names that a called function adds.
unfoldable pub own_names : Function → Option Str → List (Option Str)
unfolding resume_name
own_names f none = []
own_names f (some s) = some s ∷ (if f.is_flux == 0 then [] else some (resume_name s) ∷ [])

-- One round of the loop, where `name` is the function's.
unfoldable pub mark_function : UsedSet → UsedSet → Function → Option Str → UsedSet
unfolding used_set_has own_names add_all
mark_function called used f name =
    if used_set_has called name then add_all used (own_names f name) else used

unfoldable pub mark_called : UsedSet → UsedSet → List Function → UsedSet
unfolding mark_function
mark_called called used [] = used
mark_called called used (f ∷ fs) = mark_called called (mark_function called used f f.name) fs

unfoldable pub build_used_function_set : Module → UsedSet
unfolding collect_called_functions mark_called used_set_add
build_used_function_set m =
    used_set_add (mark_called (collect_called_functions m) [] m.functions) (some main_name)

unfoldable pub optlir_remove_unused_function : Module → Module
unfolding build_used_function_set used_set_has
optlir_remove_unused_function m = record m {
  functions = keep_if (λ f. used_set_has (build_used_function_set m) f.name) m.functions;
}
