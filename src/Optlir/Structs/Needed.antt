-- ===== src/Optlir/Structs/Needed.antt =====
-- src/optlir/unused.c: which structs `optlir_remove_unused_struct` keeps.
use alkyl.Prelude.{
  suc, ◌≡◌, refl, sym, ◌↔◌, ◌⊎◌, inl, inr, Option, none, some, List, [], ◌∷◌, arith, length, Str,
  Any, All, Sieve, done, kept, removed, ok, Bool-cases,
}
use alkyl.Ir.{Struct, Module}
use alkyl.Optlir.UsedSet.{
  UsedSet, Has, Names, Mentioned, has_text, add_all, Has-add_all, Has-collect_functions,
}
use alkyl.Optlir.Structs.{
  suffix, field_names, struct_field_names, global_type_names, signature_type_names, inst_type_names,
  mentioned_structs, collect_used_structs, keep_structs, optlir_remove_unused_struct,
}
use alkyl.Optlir.Structs.Closure.{IsNamed, is_used, is_struct_used-eq-ok, close_structs-eq-ok}
use alkyl.Optlir.Structs.Progress.{Within, passes_enough}
use alkyl.Optlir.Structs.Sound.{Covers, Covers-imp, is_used_iff, Spreads, Obeys-passes}
use alkyl.Optlir.Structs.Closed.{IsClosedAt, passes-IsClosedAt}

-- The class types that the module needs: those of its globals, signatures and instructions, and those
-- of the fields of each of its structs that is needed itself.
pub data Needs (m : Module) : Str → Type 0 where
  of_global : {n : Str} → Names n (global_type_names m.globals) → Needs m n
  of_code : {n : Str} → Mentioned signature_type_names inst_type_names m.functions n → Needs m n
  of_field :
      {n s : Str} (st : Struct)
      → Any (λ x. x ≡ st) m.structs
      → st.name ≡ some s
      → Needs m s
      → Names n (field_names st.fields)
      → Needs m n
  of_suffix :
      {n s t : Str} (st : Struct)
      → Any (λ x. x ≡ st) m.structs
      → st.name ≡ some s
      → suffix s ≡ some t
      → Needs m t
      → Names n (field_names st.fields)
      → Needs m n

Has-mentioned_structs :
    (m : Module) (n : Str)
    → Has (mentioned_structs m) n ↔ (
        Names n (global_type_names m.globals)
        ⊎ Mentioned signature_type_names inst_type_names m.functions n)
unfolding mentioned_structs has_text
Has-mentioned_structs m n = ground (
  arith,
  Has-collect_functions signature_type_names inst_type_names
      (add_all [] (global_type_names m.globals)) m.functions n,
  Has-add_all [] (global_type_names m.globals) n,
)

-- A predicate on the elements of a list, and on all that are in it.
All-Any :
    {P : Struct → Type 0} (xs : List Struct) (h : (x : Struct) → Any (λ y. y ≡ x) xs → P x)
    → All P xs
All-Any [] h = tt
All-Any (x ∷ xs) h = (h x (inl refl), All-Any xs (λ y m. h y (inr m)))

Any-All :
    (P : Struct → Type 0) (xs : List Struct) (x : Struct) → All P xs → Any (λ y. y ≡ x) xs → P x
Any-All P [] x h m = absurd m
Any-All P (y ∷ xs) x h m = elim m [ inl e ↦ rw (sym e) h.0 | inr later ↦ Any-All P xs x h.1 later ]

Spreads-Needs : (m : Module) (st : Struct) (h : Any (λ x. x ≡ st) m.structs) → Spreads (Needs m) st
Spreads-Needs m st h c n field = go st.name refl c
  where
    go : (name : Option Str) → st.name ≡ name → Covers (Needs m) name → Needs m n
    go none e c = absurd c
    go (some s) e c = elim c [
      | inl own ↦ of_field st h e own field
      | inr by ↦ of_suffix st h e by.1 by.2 field
    ]

-- What a set with the mentioned names has, if it is closed.
Has-Needs :
    (m : Module) (set : UsedSet) (start : Within (mentioned_structs m) set)
    (closed : All (IsClosedAt set) m.structs) (n : Str)
    → Needs m n
    → Has set n
Has-Needs m set start closed n (of_global h) = start n ((Has-mentioned_structs m n).1 (inl h))
Has-Needs m set start closed n (of_code h) = start n ((Has-mentioned_structs m n).1 (inr h))
Has-Needs m set start closed n (of_field {s = s} st h e need field) =
    Any-All (IsClosedAt set) m.structs st closed h
      ((is_used_iff set st.name).1 (rw e (inl (Has-Needs m set start closed s need)))) n field
Has-Needs m set start closed n (of_suffix {t = t} st h e cut need field) =
    Any-All (IsClosedAt set) m.structs st closed h
      ((is_used_iff set st.name).1 (rw e (inr (t, cut, Has-Needs m set start closed t need)))) n
      field

collect_used_structs_lem :
    (m : Module) (named : All IsNamed m.structs)
    → (set : UsedSet) × (collect_used_structs m ≡ ok (some set))
      × ((n : Str) → Has set n ↔ Needs m n)
unfolding collect_used_structs
collect_used_structs_lem m named =
    let enough = passes_enough m.structs (mentioned_structs m) in
    let set = enough.0 in
    let fuel = suc (length (struct_field_names m.structs)) in
    let closed = passes-IsClosedAt fuel m.structs (mentioned_structs m) set enough.1 in
    (
      set,
      rw (close_structs-eq-ok fuel m.structs (mentioned_structs m) named, enough.1),
      λ n. (
        Obeys-passes (Needs m) fuel m.structs (mentioned_structs m) set
            (All-Any m.structs (Spreads-Needs m)) enough.1
            (λ k h. elim ((Has-mentioned_structs m k).0 h) [
              | inl g ↦ of_global g
              | inr c ↦ of_code c
            ])
            n,
        Has-Needs m set closed.0 closed.1 n,
      ),
    )

keep_structs-Sieve :
    {P : Str → Type 0} (set : UsedSet) (h : (n : Str) → Has set n ↔ P n) (sts : List Struct)
    (named : All IsNamed sts)
    → (rest : List Struct) × (keep_structs set sts ≡ ok rest)
      × Sieve (λ st. Covers P st.name) sts rest
unfolding keep_structs
keep_structs-Sieve set h [] named = ([], refl, done)
keep_structs-Sieve set h (st ∷ sts) named =
    let tail = keep_structs-Sieve set h sts named.1 in
    rw (is_struct_used-eq-ok set st.name named.0, tail.1)
      (elim (Bool-cases (is_used set st.name)) [
        | inl e ↦ rw e (
          st ∷ tail.0,
          refl,
          kept (Covers-imp (λ n. (h n).0) st.name ((is_used_iff set st.name).0 e)) tail.2,
        )
        | inr e ↦ rw e (
          tail.0,
          refl,
          removed (λ c. cc (e, (is_used_iff set st.name).1 (Covers-imp (λ n. (h n).1) st.name c)))
              tail.2,
        )
      ])

-- In a module whose structs have names, `optlir_remove_unused_struct` ends without a fault, changes
-- only the list of structs, and those it keeps are, in their order, just those whose name, or whose name after its last '.', is a
-- class type that the module needs: one that a global, a signature or an instruction mentions, or a
-- field of a struct that is kept.
pub optlir_remove_unused_struct-Sieve :
    (m : Module) (named : All IsNamed m.structs)
    → (sts : List Struct) × (optlir_remove_unused_struct m ≡ ok (some (record m { structs = sts })))
      × Sieve (λ st. Covers (Needs m) st.name) m.structs sts
unfolding optlir_remove_unused_struct
optlir_remove_unused_struct-Sieve m named =
    let used = collect_used_structs_lem m named in
    let kept = keep_structs-Sieve used.0 used.2 m.structs named in
    (kept.0, rw (used.1, kept.1), kept.2)
