-- ===== src/Optlir/Structs/Closure.antt =====
-- src/optlir/unused.c: the closure loop of `collect_used_structs`, without the run that a struct without
-- a name breaks off, and what its passes do to the set.
use alkyl.Prelude.{
  ℕ, zero, suc, ◌≡◌, refl, inl, inr, Bool, false, ◌||◌, Option, none, some, List, [], ◌∷◌,
  if◌then◌else◌, Str, All, ok, Bool-cases,
}
use alkyl.Ir.{Struct}
use alkyl.Optlir.UsedSet.{UsedSet, used_set_has}
use alkyl.Optlir.Structs.{Round, mark_fields, mark_structs, is_struct_used, suffix, close_structs}

-- A struct has a name.
abbrev pub IsNamed : Struct → Type 0
IsNamed st = (s : Str) × (st.name ≡ some s)

unfoldable pub is_used : UsedSet → Option Str → Bool
unfolding suffix used_set_has
is_used set none = false
is_used set (some s) = used_set_has set (some s) || used_set_has set (suffix s)

-- One pass, and the loop.
unfoldable pub pass : Round → List Struct → Round
unfolding is_used mark_fields
pass r [] = r
pass r (st ∷ sts) = pass (if is_used r.set st.name then mark_fields r st.fields else r) sts

unfoldable pub passes : ℕ → List Struct → UsedSet → Option UsedSet
unfolding pass
passes zero sts set = none
passes (suc k) sts set =
    let r = pass (record { set = set; changed = false }) sts in
    let rest = passes k sts r.set in if r.changed then rest else some r.set

pub is_struct_used-eq-ok :
    (set : UsedSet) (name : Option Str) (h : (s : Str) × (name ≡ some s))
    → is_struct_used set name ≡ ok (is_used set name)
unfolding is_struct_used is_used
is_struct_used-eq-ok set name h = rw h.1

mark_structs-eq-ok :
    (r : Round) (sts : List Struct) (h : All IsNamed sts) → mark_structs r sts ≡ ok (pass r sts)
unfolding mark_structs pass
mark_structs-eq-ok r [] h = refl
mark_structs-eq-ok r (st ∷ sts) h = rw (
  is_struct_used-eq-ok r.set st.name h.0,
  mark_structs-eq-ok (if is_used r.set st.name then mark_fields r st.fields else r) sts h.1,
)

pub close_structs-eq-ok :
    (k : ℕ) (sts : List Struct) (set : UsedSet) (h : All IsNamed sts)
    → close_structs k sts set ≡ ok (passes k sts set)
unfolding close_structs passes
close_structs-eq-ok zero sts set h = refl
close_structs-eq-ok (suc k) sts set h =
    let r = pass (record { set = set; changed = false }) sts in
    rw
      (
        mark_structs-eq-ok (record { set = set; changed = false }) sts h,
        close_structs-eq-ok k sts r.set h,
      )
      (elim (Bool-cases r.changed) [ inl e ↦ rw e refl | inr e ↦ rw e refl ])
