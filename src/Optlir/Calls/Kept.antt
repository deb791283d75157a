-- ===== src/Optlir/Calls/Kept.antt =====
-- src/optlir/unused.c: which functions `optlir_remove_unused_function` keeps.
use alkyl.Prelude.{
  ℕ, ◌≡◌, refl, ◌≢◌, ◌≤◌, ◌↔◌, ◌⊎◌, inl, inr, Bool, true, false, Option, none, some, List, [], ◌∷◌,
  arith, Any, Sieve, keep_if-Sieve, Str, Bool-cases,
}
use alkyl.Ir.{Value, Inst, Function, Module}
use alkyl.Ir.Op
use alkyl.Ir.Names.{val_var, val_global}
use alkyl.Optlir.UsedSet.{
  UsedSet, Has, Names, has_text, used_set_has, Has-used_set_add, Has-add_all, Has-collect_functions,
  Mentioned-iff,
}
use alkyl.Optlir.Calls.{
  text_of, is_local_name, stored_text, called_names, collect_called_functions, main_name,
  resume_name, own_names, mark_function, mark_called, build_used_function_set,
  optlir_remove_unused_function,
}

-- The value is of the given kind and its text is `n`.
abbrev pub HasText : ℕ → Option Value → Str → Type 0
HasText k none n = ⊥
HasText k (some v) n = (v.kind ≡ k) × (v.str_val ≡ some n)

-- The text does not begin with 'p' or a digit.
abbrev pub IsFunctionName : Str → Type 0
IsFunctionName [] = Unit
IsFunctionName (c ∷ s) = (c ≢ 112) × ¬ ((48 ≤ c) × (c ≤ 57))

-- The instruction calls what `n` names, or stores it, where a variable's name is not to begin with 'p'
-- or a digit.
abbrev pub Calls : Str → Inst → Type 0
Calls n i =
    ((i.op ≡ Op.call) × (HasText val_var i.op1 n ⊎ HasText val_global i.op1 n))
    ⊎ ((i.op ≡ Op.store)
        × ((HasText val_var i.op1 n × IsFunctionName n) ⊎ HasText val_global i.op1 n))

-- Some instruction of the module does so.
abbrev pub IsCalled : Module → Str → Type 0
IsCalled m n = Any (λ f. Any (λ b. Any (Calls n) b.insts) f.blocks) m.functions

-- The function is called, and `n` is its name or, of a flux, its resume function's.
abbrev pub Marks : Module → Str → Function → Option Str → Type 0
Marks m n f none = ⊥
Marks m n f (some s) = IsCalled m s × ((s ≡ n) ⊎ ((f.is_flux ≢ 0) × (resume_name s ≡ n)))

-- The name is "main" or one that a called function of the module marks.
abbrev pub IsUsed : Module → Option Str → Type 0
IsUsed m none = ⊥
IsUsed m (some n) = (n ≡ main_name) ⊎ Any (λ f. Marks m n f f.name) m.functions

pub text_of_iff : (k : ℕ) (o : Option Value) (n : Str) → (text_of k o ≡ some n) ↔ HasText k o n
unfolding text_of
text_of_iff k none n = (λ e. cc, λ e. absurd e)
text_of_iff k (some v) n = ground arith

is_local_name_iff : (n : Str) → (is_local_name n ≡ false) ↔ IsFunctionName n
unfolding is_local_name
is_local_name_iff [] = (λ _. tt, λ _. refl)
is_local_name_iff (c ∷ s) = ground arith

stored_text_iff :
    (o : Option Str) (n : Str) → (stored_text o ≡ some n) ↔ ((o ≡ some n) × IsFunctionName n)
unfolding stored_text
stored_text_iff none n = (λ e. cc, λ e. cc)
stored_text_iff (some s) n = elim (Bool-cases (is_local_name s)) [
  | inl e ↦ rw e (λ h. cc, λ h. ground (arith, (is_local_name_iff n).1 h.1, named h.0 e))
  | inr e ↦ rw e (λ h. (h, (is_local_name_iff n).0 (named h e)), λ h. h.0)
]
  where
    named : {b : Bool} → some s ≡ some n → is_local_name s ≡ b → is_local_name n ≡ b
    named h e = cc

Names-called_names : (n : Str) (i : Inst) → Names n (called_names i) ↔ Calls n i
unfolding called_names
Names-called_names n i = ground (
  arith,
  text_of_iff val_var i.op1 n,
  text_of_iff val_global i.op1 n,
  stored_text_iff (text_of val_var i.op1) n,
)

used_set_has_iff : (set : UsedSet) (n : Str) → (used_set_has set (some n) ≡ true) ↔ Has set n
unfolding used_set_has
used_set_has_iff set n = (λ e. e, λ e. e)

Has-collect_called_functions :
    (m : Module) (n : Str) → Has (collect_called_functions m) n ↔ IsCalled m n
unfolding collect_called_functions has_text
Has-collect_called_functions m n = ground (
  arith,
  Has-collect_functions (λ _. []) called_names [] m.functions n,
  Mentioned-iff called_names (Calls n) n (Names-called_names n) m.functions,
)

Names-own_names :
    (f : Function) (s n : Str)
    → Names n (own_names f (some s)) ↔ ((s ≡ n) ⊎ ((f.is_flux ≢ 0) × (resume_name s ≡ n)))
unfolding own_names
Names-own_names f s n = ground arith

Has-mark_function :
    (m : Module) (used : UsedSet) (f : Function) (name : Option Str) (n : Str)
    → Has (mark_function (collect_called_functions m) used f name) n
      ↔ (Has used n ⊎ Marks m n f name)
unfolding mark_function used_set_has
Has-mark_function m used f none n = (inl, λ h. elim h [ inl g ↦ g | inr e ↦ absurd e ])
Has-mark_function m used f (some s) n = ground (
  arith,
  Has-collect_called_functions m s,
  Has-add_all used (own_names f (some s)) n,
  Names-own_names f s n,
)

Has-mark_called :
    (m : Module) (used : UsedSet) (fs : List Function) (n : Str)
    → Has (mark_called (collect_called_functions m) used fs) n
      ↔ (Has used n ⊎ Any (λ f. Marks m n f f.name) fs)
unfolding mark_called
Has-mark_called m used [] n = (inl, λ h. elim h [ inl g ↦ g | inr e ↦ absurd e ])
Has-mark_called m used (f ∷ fs) n = ground (
  arith,
  Has-mark_called m (mark_function (collect_called_functions m) used f f.name) fs n,
  Has-mark_function m used f f.name n,
)

build_used_function_set_lem :
    (m : Module) (name : Option Str)
    → (used_set_has (build_used_function_set m) name ≡ true) ↔ IsUsed m name
unfolding build_used_function_set used_set_has has_text
build_used_function_set_lem m none = (λ e. cc, λ e. absurd e)
build_used_function_set_lem m (some n) = ground (
  arith,
  Has-used_set_add (mark_called (collect_called_functions m) [] m.functions) (some main_name) n,
  Has-mark_called m [] m.functions n,
)

-- The functions that `optlir_remove_unused_function` keeps are, in their order, just those with the
-- name "main" or a name that a function marks (its own or, of a flux, its resume function's) whose name
-- an instruction of the module calls or stores, where a stored variable's name counts just when it
-- does not begin with 'p' or a digit.
pub optlir_remove_unused_function-Sieve :
    (m : Module)
    → Sieve (λ f. IsUsed m f.name) m.functions (optlir_remove_unused_function m).functions
unfolding optlir_remove_unused_function
optlir_remove_unused_function-Sieve m =
    keep_if-Sieve (λ f. used_set_has (build_used_function_set m) f.name)
      (λ f. build_used_function_set_lem m f.name) m.functions
