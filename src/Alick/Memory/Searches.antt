-- ===== src/Alick/Memory/Searches.antt =====
-- Which searches of the map of freed keys in `alick_check_memory` read one of its keys.
use mathlib.Core.Logic.{⊎_elim}
use alkyl.Prelude.{
  ◌≡◌, refl, ◌↔◌, ◌⊎◌, inl, inr, Bool, true, false, Option, List, [], ◌∷◌, arith, All, Any,
  Bool-cases, Option-cases,
}
use alkyl.Ir.{Value, Inst}
use alkyl.Hashmap.Hash.{hash_string}
use alkyl.Alick.Memory.{
  Key, get_val_key, hashmap_has, same_key, check_uses, key_text, same_hash, has_hash, compares,
  compares_args, reads_key,
}
use alkyl.Alick.Memory.Clean.{HasKey, Freed, same_key_iff, check_uses-eq-nil}

-- The keys have the same hash.
abbrev pub SameHash : Key → Key → Type 0
SameHash j k = hash_string (key_text j) ≡ hash_string (key_text k)

-- The value, or an operand or argument of the instruction, has a key with the hash of `j`.
abbrev pub Meets : Key → Option Value → Type 0
Meets j v = (k : Key) × HasKey k v × SameHash j k

abbrev pub Touches : Key → Inst → Type 0
Touches j i = Meets j i.op1 ⊎ Meets j i.op2 ⊎ Any (Meets j) i.args

has_hash_iff :
    (freed : List Key) (k : Key)
    → (has_hash freed k ≡ true) ↔ ((j : Key) × Freed freed j × SameHash j k)
unfolding has_hash same_hash hashmap_has
has_hash_iff [] k = (λ e. cc, λ (j, there, same). cc there)
has_hash_iff (j ∷ freed) k =
    let rest = has_hash_iff freed k in
    (
      λ e. elim (Bool-cases (same_hash j k)) [
        | inl same ↦ (j, ground (arith, (same_key_iff j j).1 refl), ground (arith, same))
        | inr other ↦
            let (m, there, same) = rest.0 (rw other at e) in (m, ground (arith, there), same)
      ],
      λ (m, there, same). elim (Bool-cases (same_key j m)) [
        | inl equal ↦
            let first : j ≡ m = (same_key_iff j m).0 equal in
            let here : SameHash j k = rw first same in ground (arith, here)
        | inr other ↦ ground (arith, rest.1 (m, rw other at there, same))
      ],
    )

compares_iff :
    (freed : List Key) (v : Option Value)
    → (compares freed (get_val_key v) ≡ true) ↔ ((j : Key) × Freed freed j × Meets j v)
unfolding compares
compares_iff freed v = elim (Option-cases (get_val_key v)) [
  | inl e ↦ (λ c. absurd (none_compares (rw e at c)), λ (j, there, (k, has, same)). cc (e, has))
  | inr (k, e) ↦ (
    λ c. let (j, there, same) = (has_hash_iff freed k).0 (rw e at c) in (j, there, (k, e, same)),
    λ (j, there, (l, has, same)). rw has ((has_hash_iff freed l).1 (j, there, same)),
  )
]
  where
    none_compares : false ≡ true → ⊥
    none_compares e = cc

compares_args_iff :
    (freed : List Key) (vs : List (Option Value))
    → (compares_args freed vs ≡ true) ↔ ((j : Key) × Freed freed j × Any (Meets j) vs)
unfolding compares_args
compares_args_iff freed [] = (λ e. cc, λ (j, there, meets). absurd meets)
compares_args_iff freed (v ∷ vs) =
    let first = compares_iff freed v in
    let rest = compares_args_iff freed vs in
    (
      λ e. elim (Bool-cases (compares freed (get_val_key v))) [
        | inl here ↦ let (j, there, meets) = first.0 here in (j, there, inl meets)
        | inr other ↦ let (j, there, meets) = rest.0 (rw other at e) in (j, there, inr meets)
      ],
      λ (j, there, meets).
          ⊎_elim (λ here. let e = first.1 (j, there, here) in ground (arith, e))
            (λ later. let e = rest.1 (j, there, later) in ground (arith, e)) meets,
    )

-- The searches for the instruction read a key of the map just when it touches one.
pub reads_key_iff :
    (freed : List Key) (i : Inst)
    → (reads_key freed i ≡ true) ↔ ((j : Key) × Freed freed j × Touches j i)
unfolding reads_key
reads_key_iff freed i =
    let first = compares_iff freed i.op1 in
    let second = compares_iff freed i.op2 in
    let others = compares_args_iff freed i.args in
    (
      λ e. elim (Bool-cases (compares freed (get_val_key i.op1))) [
        | inl a ↦ let (j, there, meets) = first.0 a in (j, there, inl meets)
        | inr no_a ↦ elim (Bool-cases (compares freed (get_val_key i.op2))) [
          | inl b ↦ let (j, there, meets) = second.0 b in (j, there, inr (inl meets))
          | inr no_b ↦
              let (j, there, meets) = others.0 (ground (arith, e, no_a, no_b)) in
              (j, there, inr (inr meets))
        ]
      ],
      λ (j, there, touches). elim touches [
        | inl a ↦ let e = first.1 (j, there, a) in ground (arith, e)
        | inr (inl b) ↦ let e = second.1 (j, there, b) in ground (arith, e)
        | inr (inr c) ↦ let e = others.1 (j, there, c) in ground (arith, e)
      ],
    )

-- Where no key of the map is read, none is in an operand or argument, so that nothing is reported.
pub reads_nothing :
    (freed : List Key) (i : Inst) → reads_key freed i ≡ false → check_uses freed i ≡ []
reads_nothing freed i e =
    let never : (j : Key) → Freed freed j → ¬ Touches j i =
      λ j there touches. absurd (contrary (reads_key_iff freed i).1 (j, there, touches) e) in
    (check_uses-eq-nil freed i).1 (λ j there. (
      λ has. never j there (inl (j, has, refl)),
      λ has. never j there (inr (inl (j, has, refl))),
      none_meets j i.args (λ m. never j there (inr (inr m))),
    ))
  where
    contrary : {P : Type 0} {b : Bool} → (P → b ≡ true) → P → b ≡ false → ⊥
    contrary h p e = cc (h p, e)

    none_meets :
        (j : Key) (vs : List (Option Value)) → ¬ Any (Meets j) vs → All (λ v. ¬ HasKey j v) vs
    none_meets j [] h = tt
    none_meets j (v ∷ vs) h = (λ has. h (inl (j, has, refl)), none_meets j vs (λ m. h (inr m)))
