-- ===== src/Optlir/Structs/Closed.antt =====
-- src/optlir/unused.c: where the closure loop of `collect_used_structs` ends, the fields of the used
-- structs are in the set.
use alkyl.Prelude.{
  ℕ, zero, suc, ◌≡◌, refl, ◌∙◌, ap, sym, inl, inr, true, false, Option, none, some, List, [], ◌∷◌,
  if◌then◌else◌, Str, All, Bool-cases,
}
use alkyl.Ir.{Field, Struct}
use alkyl.Optlir.UsedSet.{UsedSet, Has, Names, has_text}
use alkyl.Optlir.Structs.{Round, mark_name, mark_fields, type_name, field_names, struct_field_names}
use alkyl.Optlir.Structs.Closure.{is_used, pass, passes}
use alkyl.Optlir.Structs.Progress.{Within, Follows-pass}

mark_name_same :
    (r : Round) (o : Option Str) (e : (mark_name r o).changed ≡ false)
    → (mark_name r o ≡ r) × ((n : Str) → o ≡ some n → Has r.set n)
unfolding mark_name
mark_name_same r none e = (refl, λ n same. cc)
mark_name_same r (some k) e = elim (Bool-cases (has_text r.set k)) [
  | inl has ↦ rw has (refl, λ n same. named has same)
  | inr new ↦ absurd (true_false (rw new at e))
]
  where
    true_false : true ≡ false → ⊥
    true_false e = cc

    named : {n : Str} → has_text r.set k ≡ true → some k ≡ some n → has_text r.set n ≡ true
    named h same = cc

mark_fields_same :
    (r : Round) (fs : List Field) (e : (mark_fields r fs).changed ≡ false)
    → (mark_fields r fs ≡ r) × ((n : Str) → Names n (field_names fs) → Has r.set n)
unfolding mark_fields field_names
mark_fields_same r [] e = (refl, λ n m. absurd m)
mark_fields_same r (f ∷ fs) e =
    let o = type_name f.type in
    let rest = mark_fields_same (mark_name r o) fs e in
    let first = mark_name_same r o (ap (λ x. x.changed) (sym rest.0) ∙ e) in
    (
      rest.0 ∙ first.0,
      λ n m. elim m [
        | inl same ↦ first.1 n same
        | inr later ↦ rw (sym (ap (λ x. x.set) first.0)) (rest.1 n later)
      ],
    )

-- The fields of the struct are in the set, if the struct is used.
abbrev pub IsClosedAt : UsedSet → Struct → Type 0
IsClosedAt set st =
    is_used set st.name ≡ true → (n : Str) → Names n (field_names st.fields) → Has set n

step_same :
    (r : Round) (st : Struct)
    (e : (if is_used r.set st.name then mark_fields r st.fields else r).changed ≡ false)
    → ((if is_used r.set st.name then mark_fields r st.fields else r) ≡ r) × IsClosedAt r.set st
step_same r st e = elim (Bool-cases (is_used r.set st.name)) [
  | inr out ↦ rw out (refl, λ bad. cc)
  | inl out ↦ let same = mark_fields_same r st.fields (rw out at e) in rw out (same.0, λ _. same.1)
]

pass_same :
    (r : Round) (sts : List Struct) (e : (pass r sts).changed ≡ false)
    → (pass r sts ≡ r) × All (IsClosedAt r.set) sts
unfolding pass
pass_same r [] e = (refl, tt)
pass_same r (st ∷ sts) e =
    let rest = pass_same (if is_used r.set st.name then mark_fields r st.fields else r) sts e in
    let first = step_same r st (ap (λ x. x.changed) (sym rest.0) ∙ e) in
    (rest.0 ∙ first.0, (first.1, rw (ap (λ x. x.set) first.0) at rest.1))

-- Where the loop ends.
pub passes-IsClosedAt :
    (k : ℕ) (sts : List Struct) (set final : UsedSet)
    → passes k sts set ≡ some final
    → Within set final × All (IsClosedAt final) sts
unfolding passes
passes-IsClosedAt zero sts set final e = cc
passes-IsClosedAt (suc k) sts set final e =
    let start : Round = record { set = set; changed = false } in
    let r = pass start sts in
    let follows = Follows-pass (struct_field_names sts) start sts (λ n m. m) in
    elim (Bool-cases r.changed) [
      | inl c ↦
          let rest = passes-IsClosedAt k sts r.set final (rw c at e) in
          (λ n h. rest.0 n (follows.0 n h), rest.1)
      | inr c ↦
          let same = pass_same start sts c in
          let stays = sym (some_inj (rw c at e)) ∙ ap (λ x. x.set) same.0 in
          (λ n h. rw stays h, rw stays same.1)
    ]
  where
    some_inj : {x y : UsedSet} → some x ≡ some y → x ≡ y
    some_inj e = cc
