-- ===== src/Optlir/Structs/Sound.antt =====
-- src/optlir/unused.c: the closure loop of `collect_used_structs` marks only names that it must.
use alkyl.Prelude.{
  ℕ, zero, suc, ◌≡◌, refl, ◌↔◌, ◌⊎◌, inl, inr, true, false, Option, none, some, List, [], ◌∷◌,
  if◌then◌else◌, arith, Str, All, Bool-cases,
}
use alkyl.Ir.{Field, Struct}
use alkyl.Optlir.UsedSet.{UsedSet, Has, Names, has_text, used_set_has, Has-used_set_add}
use alkyl.Optlir.Structs.{Round, mark_name, mark_fields, type_name, suffix, field_names}
use alkyl.Optlir.Structs.Closure.{is_used, pass, passes}

-- The name, or what follows its last '.', satisfies `P`.
abbrev pub Covers : (Str → Type 0) → Option Str → Type 0
Covers P none = ⊥
Covers P (some s) = P s ⊎ ((t : Str) × (suffix s ≡ some t) × P t)

pub Covers-imp :
    {P Q : Str → Type 0} (h : (n : Str) → P n → Q n) (name : Option Str)
    → Covers P name
    → Covers Q name
Covers-imp h none c = c
Covers-imp h (some s) c = elim c [ inl p ↦ inl (h s p) | inr p ↦ inr (p.0, p.1, h p.0 p.2) ]

used_set_has_iff :
    (set : UsedSet) (o : Option Str)
    → (used_set_has set o ≡ true) ↔ ((t : Str) × (o ≡ some t) × Has set t)
unfolding used_set_has
used_set_has_iff set none = (λ e. cc, λ h. cc (h.1))
used_set_has_iff set (some s) = (λ e. (s, refl, e), λ h. named h.1 h.2)
  where
    named : {t : Str} → some s ≡ some t → has_text set t ≡ true → has_text set s ≡ true
    named e h = cc

pub is_used_iff :
    (set : UsedSet) (name : Option Str) → (is_used set name ≡ true) ↔ Covers (Has set) name
unfolding is_used used_set_has
is_used_iff set none = (λ e. cc, λ e. absurd e)
is_used_iff set (some s) = ground (arith, used_set_has_iff set (suffix s))

-- Where the names that are marked satisfy `P`, so does all of the set.
module _ (P : Str → Type 0) where
  abbrev pub Obeys : UsedSet → Type 0
  Obeys set = (n : Str) → Has set n → P n

  Obeys-mark_name :
      (r : Round) (o : Option Str) (h : (n : Str) → o ≡ some n → P n)
      → Obeys r.set
      → Obeys (mark_name r o).set
  unfolding mark_name
  Obeys-mark_name r none h g = g
  Obeys-mark_name r (some k) h g = elim (Bool-cases (has_text r.set k)) [
    | inl e ↦ rw e g
    | inr e ↦ rw e (λ n new. elim ((Has-used_set_add r.set (some k) n).0 new) [
      | inl old ↦ g n old
      | inr same ↦ h n same
    ])
  ]

  Obeys-mark_fields :
      (r : Round) (fs : List Field) (h : (n : Str) → Names n (field_names fs) → P n)
      → Obeys r.set
      → Obeys (mark_fields r fs).set
  unfolding mark_fields field_names
  Obeys-mark_fields r [] h g = g
  Obeys-mark_fields r (f ∷ fs) h g =
      Obeys-mark_fields (mark_name r (type_name f.type)) fs (λ n e. h n (inr e))
        (Obeys-mark_name r (type_name f.type) (λ n e. h n (inl e)) g)

  -- The fields of a struct that `P` covers satisfy it.
  abbrev pub Spreads : Struct → Type 0
  Spreads st = Covers P st.name → (n : Str) → Names n (field_names st.fields) → P n

  Obeys-step :
      (r : Round) (st : Struct) (h : Spreads st)
      → Obeys r.set
      → Obeys (if is_used r.set st.name then mark_fields r st.fields else r).set
  Obeys-step r st h g = elim (Bool-cases (is_used r.set st.name)) [
    | inr e ↦ rw e g
    | inl e ↦ rw e (
        Obeys-mark_fields r st.fields (h (Covers-imp g st.name ((is_used_iff r.set st.name).0 e)))
          g)
  ]

  Obeys-pass :
      (r : Round) (sts : List Struct) (h : All Spreads sts) → Obeys r.set → Obeys (pass r sts).set
  unfolding pass
  Obeys-pass r [] h g = g
  Obeys-pass r (st ∷ sts) h g =
      Obeys-pass (if is_used r.set st.name then mark_fields r st.fields else r) sts h.1
        (Obeys-step r st h.0 g)

  pub Obeys-passes :
      (k : ℕ) (sts : List Struct) (set final : UsedSet) (h : All Spreads sts)
      → passes k sts set ≡ some final
      → Obeys set
      → Obeys final
  unfolding passes
  Obeys-passes zero sts set final h e g = cc
  Obeys-passes (suc k) sts set final h e g =
      let start : Round = record { set = set; changed = false } in
      let r = pass start sts in
      let obeys = Obeys-pass start sts h g in
      elim (Bool-cases r.changed) [
        | inl c ↦ Obeys-passes k sts r.set final h (rw c at e) obeys
        | inr c ↦ λ n has. obeys n (rw (some_inj (rw c at e)) has)
      ]
    where
      some_inj : {x y : UsedSet} → some x ≡ some y → x ≡ y
      some_inj e = cc
