-- ===== src/Optlir/Structs/Progress.antt =====
-- src/optlir/unused.c: each pass of the closure loop that changes the set takes a name off the list of
-- those it lacks, so that the fuel never runs out.
use alkyl.Prelude.{
  ℕ, zero, suc, ◌+◌, ◌≤◌, ◌<◌, ◌≡◌, refl, ◌⊎◌, inl, inr, Bool, true, false, Option, none, some,
  List, [], ◌∷◌, if◌then◌else◌, arith, length, Str, Bool-cases,
}
use alkyl.Ir.{Field, Struct}
use alkyl.Optlir.UsedSet.{
  UsedSet, Has, Names, Names-append, has_text, used_set_has, used_set_add, Has-used_set_add,
}
use alkyl.Optlir.Structs.{Round, mark_name, mark_fields, type_name, field_names, struct_field_names}
use alkyl.Optlir.Structs.Closure.{is_used, pass, passes}

-- The names of the list that the set lacks.
pub missing : UsedSet → List (Option Str) → ℕ
unfolding used_set_has
missing set [] = 0
missing set (o ∷ os) = (if used_set_has set o then 0 else 1) + missing set os

abbrev pub Within : UsedSet → UsedSet → Type 0
Within xs ys = (n : Str) → Has xs n → Has ys n

missing_le :
    (xs ys : UsedSet) (h : Within xs ys) (os : List (Option Str)) → missing ys os ≤ missing xs os
unfolding missing
missing_le xs ys h [] = omega arith
missing_le xs ys h (none ∷ os) = omega (arith, missing_le xs ys h os)
missing_le xs ys h (some n ∷ os) = ground (arith, h n, missing_le xs ys h os)

missing_lt :
    (xs ys : UsedSet) (h : Within xs ys) (n : Str) (new : Has ys n) (e : has_text xs n ≡ false)
    (os : List (Option Str)) (m : Names n os)
    → missing ys os < missing xs os
unfolding missing
missing_lt xs ys h n new e [] m = absurd m
missing_lt xs ys h n new e (none ∷ os) m = elim m [
  | inl bad ↦ cc
  | inr m1 ↦ omega (arith, missing_lt xs ys h n new e os m1)
]
missing_lt xs ys h n new e (some k ∷ os) m = elim m [
  | inl same ↦ ground (arith, (here same).0, (here same).1, missing_le xs ys h os)
  | inr m1 ↦ ground (arith, h k, missing_lt xs ys h n new e os m1)
]
  where
    here : some k ≡ some n → (has_text ys k ≡ true) × (has_text xs k ≡ false)
    here same = (cc, cc)

missing-length : (set : UsedSet) (os : List (Option Str)) → missing set os ≤ length os
unfolding missing
missing-length set [] = omega arith
missing-length set (o ∷ os) = ground (arith, missing-length set os)

-- What marking does to a round, where all names marked are among `names`.
abbrev pub Follows : List (Option Str) → Round → Round → Type 0
Follows names r r1 =
    Within r.set r1.set
    × (r.changed ≡ true → r1.changed ≡ true)
    × (r1.changed ≡ true → (r.changed ≡ true) ⊎ (missing r1.set names < missing r.set names))

module _ (names : List (Option Str)) where
  Follows-refl : (r : Round) → Follows names r r
  Follows-refl r = (λ n h. h, λ e. e, λ e. inl e)

  Follows-trans : (r s t : Round) → Follows names r s → Follows names s t → Follows names r t
  Follows-trans r s t h k = (
    λ n g. k.0 n (h.0 n g),
    λ e. k.1 (h.1 e),
    λ e.
        ground
          (arith, h.2, k.2 e, missing_le r.set s.set h.0 names, missing_le s.set t.set k.0 names),
  )

  Follows-mark_name :
      (r : Round) (o : Option Str) (h : (n : Str) → o ≡ some n → Names n names)
      → Follows names r (mark_name r o)
  unfolding mark_name
  Follows-mark_name r none h = Follows-refl r
  Follows-mark_name r (some n) h = elim (Bool-cases (has_text r.set n)) [
    | inl e ↦ rw e (Follows-refl r)
    | inr e ↦ rw e (
      λ k g. (Has-used_set_add r.set (some n) k).1 (inl g),
      λ _. refl,
      λ _. inr (
          missing_lt r.set (used_set_add r.set (some n))
            (λ k g. (Has-used_set_add r.set (some n) k).1 (inl g)) n
            ((Has-used_set_add r.set (some n) n).1 (inr refl)) e names (h n refl)),
    )
  ]

  Follows-mark_fields :
      (r : Round) (fs : List Field) (h : (n : Str) → Names n (field_names fs) → Names n names)
      → Follows names r (mark_fields r fs)
  unfolding mark_fields field_names
  Follows-mark_fields r [] h = Follows-refl r
  Follows-mark_fields r (f ∷ fs) h =
      Follows-trans r (mark_name r (type_name f.type))
        (mark_fields (mark_name r (type_name f.type)) fs)
        (Follows-mark_name r (type_name f.type) (λ n e. h n (inl e)))
        (Follows-mark_fields (mark_name r (type_name f.type)) fs (λ n e. h n (inr e)))

  Follows-step :
      (r : Round) (used : Bool) (fs : List Field)
      (h : (n : Str) → Names n (field_names fs) → Names n names)
      → Follows names r (if used then mark_fields r fs else r)
  Follows-step r true fs h = Follows-mark_fields r fs h
  Follows-step r false fs h = Follows-refl r

  pub Follows-pass :
      (r : Round) (sts : List Struct)
      (h : (n : Str) → Names n (struct_field_names sts) → Names n names)
      → Follows names r (pass r sts)
  unfolding pass struct_field_names
  Follows-pass r [] h = Follows-refl r
  Follows-pass r (st ∷ sts) h =
      let r1 = if is_used r.set st.name then mark_fields r st.fields else r in
      Follows-trans r r1 (pass r1 sts)
        (Follows-step r (is_used r.set st.name) st.fields (λ n e.
          h n ((Names-append n (field_names st.fields) (struct_field_names sts)).1 (inl e))))
        (Follows-pass r1 sts (λ n e.
          h n ((Names-append n (field_names st.fields) (struct_field_names sts)).1 (inr e))))

-- With more fuel than names that the set lacks, the loop ends.
passes-missing :
    (sts : List Struct) (k : ℕ) (set : UsedSet) (enough : missing set (struct_field_names sts) < k)
    → (final : UsedSet) × (passes k sts set ≡ some final)
unfolding passes
passes-missing sts zero set enough = absurd (omega (arith, enough))
passes-missing sts (suc k) set enough =
    let start : Round = record { set = set; changed = false } in
    let r = pass start sts in
    let follows = Follows-pass (struct_field_names sts) start sts (λ n e. e) in
    elim (Bool-cases r.changed) [
      | inr e ↦ rw e (r.set, refl)
      | inl e ↦ rw e (passes-missing sts k r.set (less (follows.2 e) enough))
    ]
  where
    less : {a b : ℕ} → (false ≡ true) ⊎ (a < b) → b < suc k → a < k
    less h g = ground arith

pub passes_enough :
    (sts : List Struct) (set : UsedSet)
    → (final : UsedSet) × (passes (suc (length (struct_field_names sts))) sts set ≡ some final)
passes_enough sts set =
    passes-missing sts (suc (length (struct_field_names sts))) set
      (omega (arith, missing-length set (struct_field_names sts)))
