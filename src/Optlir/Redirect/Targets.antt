-- ===== src/Optlir/Redirect/Targets.antt =====
-- src/optlir/local.c: where a redirected instruction goes to.
use alkyl.Prelude.{
  Any, sym, ◌≡◌, refl, ◌≢◌, ◌↔◌, ◌⊎◌, inl, inr, true, false, Option, none, some, List, [], ◌∷◌,
  ◌==◌, arith, map, Str, same_text, same_text_iff, Bool-cases,
}
use alkyl.Ir.{Value, Inst, Block}
use alkyl.Ir.Names.{val_label}
use alkyl.Optlir.Calls.Kept.{HasText}
use alkyl.Optlir.Reach.{label_text}
use alkyl.Optlir.Reach.Edges.{IsLabel, FirstIs, GoesTo}
use alkyl.Optlir.Branches.{alir_val_label}
use alkyl.Optlir.Redirect.{
  text_is, redirect_value, redirect_first, redirect_inst, redirect_label_to,
}

-- `n` takes the place of `old`.
abbrev pub Moved : (Str → Type 0) → Str → Str → Str → Type 0
Moved P old new n = ((n ≡ new) × P old) ⊎ ((n ≢ old) × P n)

text_is-label_text :
    (o : Option Value) (s : Str) → (text_is (label_text o) s ≡ true) ↔ HasText val_label o s
unfolding text_is label_text
text_is-label_text none s = (λ e. cc, λ e. absurd e)
text_is-label_text (some v) s = elim (Bool-cases (v.kind == val_label)) [
  | inr e ↦ rw e (λ h. cc, λ h. absurd (ground (arith, e, h.0)))
  | inl e ↦ rw e (
    λ h. (ground (arith, e), (text_is-some v.str_val s).0 h),
    λ h. (text_is-some v.str_val s).1 h.1,
  )
]
  where
    text_is-some : (o : Option Str) (s : Str) → (text_is o s ≡ true) ↔ (o ≡ some s)
    text_is-some none s = (λ e. cc, λ e. cc)
    text_is-some (some t) s =
        (λ e. named ((same_text_iff t s).0 e), λ e. (same_text_iff t s).1 (inner e))
      where
        named : t ≡ s → some t ≡ some s
        named e = cc

        inner : some t ≡ some s → t ≡ s
        inner e = cc

HasText-one : (o : Option Value) (s t : Str) → HasText val_label o s → HasText val_label o t → t ≡ s
HasText-one none s t h k = absurd h
HasText-one (some v) s t h k = same h.1 k.1
  where
    same : v.str_val ≡ some s → v.str_val ≡ some t → t ≡ s
    same e f = cc

HasText-redirect_value :
    (old new n : Str) (o : Option Value)
    → HasText val_label (redirect_value old new o) n ↔ Moved (HasText val_label o) old new n
unfolding redirect_value alir_val_label
HasText-redirect_value old new n o = elim (Bool-cases (text_is (label_text o) old)) [
  | inl e ↦ rw e (
    λ h. inl (back h.1, (text_is-label_text o old).0 e),
    λ h. elim h [
      | inl moved ↦ (refl, there moved.0)
      | inr kept ↦ absurd (kept.0 (HasText-one o old n ((text_is-label_text o old).0 e) kept.1))
    ],
  )
  | inr e ↦ rw e (
    λ h. inr (λ same. lacks e (rw (sym same) h), h),
    λ h. elim h [ inl moved ↦ absurd (lacks e moved.1) | inr kept ↦ kept.1 ],
  )
]
  where
    back : some new ≡ some n → n ≡ new
    back e = cc

    there : n ≡ new → some new ≡ some n
    there e = cc

    lacks : text_is (label_text o) old ≡ false → HasText val_label o old → ⊥
    lacks e h = cc (e, (text_is-label_text o old).1 h)

IsLabel-redirect_value :
    (old new : Str) (o : Option Value) → IsLabel (redirect_value old new o) ↔ IsLabel o
unfolding redirect_value alir_val_label
IsLabel-redirect_value old new o = elim (Bool-cases (text_is (label_text o) old)) [
  | inl e ↦ rw e (λ h. a_label o ((text_is-label_text o old).0 e), λ h. refl)
  | inr e ↦ rw e (λ h. h, λ h. h)
]
  where
    a_label : (o : Option Value) → HasText val_label o old → IsLabel o
    a_label none h = h
    a_label (some v) h = h.0

FirstIs-redirect_first :
    (old new n : Str) (vs : List (Option Value))
    → FirstIs (redirect_first old new vs) n ↔ Moved (FirstIs vs) old new n
unfolding redirect_first
FirstIs-redirect_first old new n [] =
    (λ e. absurd e, λ h. elim h [ inl a ↦ absurd a.1 | inr b ↦ absurd b.1 ])
FirstIs-redirect_first old new n (v ∷ vs) = HasText-redirect_value old new n v

GoesTo-redirect_inst :
    (old new n : Str) (i : Inst) → GoesTo (redirect_inst old new i) n ↔ Moved (GoesTo i) old new n
unfolding redirect_inst
GoesTo-redirect_inst old new n i = ground (
  arith,
  HasText-redirect_value old new n i.op1,
  HasText-redirect_value old new n i.op2,
  FirstIs-redirect_first old new n i.args,
  IsLabel-redirect_value old new i.op2,
)

Any-redirect :
    (old new n : Str) (is : List Inst)
    → Any (λ i. GoesTo i n) (map (redirect_inst old new) is)
      ↔ Moved (λ s. Any (λ i. GoesTo i s) is) old new n
Any-redirect old new n [] = (λ e. absurd e, λ h. elim h [ inl a ↦ absurd a.1 | inr b ↦ absurd b.1 ])
Any-redirect old new n (i ∷ is) =
    ground (arith, GoesTo-redirect_inst old new n i, Any-redirect old new n is)

-- A block that is redirected from one label to a different one goes just where it went before, but for
-- the old label, in whose place it goes to the new one.
pub redirect_label_to-Moved :
    (old new n : Str) (b : Block) (differ : old ≢ new)
    → Any (λ i. GoesTo i n) (redirect_label_to (some old) (some new) b).insts
      ↔ Moved (λ s. Any (λ i. GoesTo i s) b.insts) old new n
unfolding redirect_label_to
redirect_label_to-Moved old new n b differ = elim (Bool-cases (same_text old new)) [
  | inl same ↦ absurd (differ ((same_text_iff old new).0 same))
  | inr other ↦ rw other (Any-redirect old new n b.insts)
]
