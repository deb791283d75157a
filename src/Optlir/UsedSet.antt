-- ===== src/Optlir/UsedSet.antt =====
-- The sets of names of src/optlir/unused.c (`UsedSet` of include/optlir/optlir.h), and the loops over
-- a module that fill them.
use alkyl.Prelude.{
  ◌≡◌, ◌↔◌, ◌⊎◌, inl, inr, Bool, true, false, ◌||◌, Option, none, some, List, [], ◌∷◌, ◌++◌, arith,
  if◌then◌else◌, Any, Any-iff, Str, same_text, same_text_iff, Bool-cases,
}
use alkyl.Ir.{Inst, Block, Function}

-- `names[0 .. count)`; the capacity only serves to grow the array.
abbrev pub UsedSet : Type 0
UsedSet = List Str

unfoldable pub has_text : UsedSet → Str → Bool
has_text [] name = false
has_text (n ∷ ns) name = same_text n name || has_text ns name

unfoldable pub used_set_has : UsedSet → Option Str → Bool
unfolding has_text
used_set_has set none = false
used_set_has set (some name) = has_text set name

unfoldable pub used_set_add : UsedSet → Option Str → UsedSet
unfolding has_text
used_set_add set none = set
used_set_add set (some name) = if has_text set name then set else set ++ name ∷ []

-- Calls of `used_set_add`, one after the other.
unfoldable pub add_all : UsedSet → List (Option Str) → UsedSet
add_all set [] = set
add_all set (n ∷ ns) = add_all (used_set_add set n) ns

-- The loops over functions, blocks and instructions: `heads` gives the names that a function's
-- signature adds, and `names` those that an instruction adds.
module _ (heads : Function → List (Option Str)) (names : Inst → List (Option Str)) where
  unfoldable pub collect_insts : UsedSet → List Inst → UsedSet
  collect_insts set [] = set
  collect_insts set (i ∷ is) = collect_insts (add_all set (names i)) is

  unfoldable pub collect_blocks : UsedSet → List Block → UsedSet
  collect_blocks set [] = set
  collect_blocks set (b ∷ bs) = collect_blocks (collect_insts set b.insts) bs

  unfoldable pub collect_functions : UsedSet → List Function → UsedSet
  collect_functions set [] = set
  collect_functions set (f ∷ fs) =
      collect_functions (collect_blocks (add_all set (heads f)) f.blocks) fs

-- The set has the name.
abbrev pub Has : UsedSet → Str → Type 0
Has set n = has_text set n ≡ true

-- The name is one of those in the list, where NULL is none.
abbrev pub Names : Str → List (Option Str) → Type 0
Names n = Any (λ o. o ≡ some n)

-- The name is one that a function's signature or an instruction of it adds.
abbrev pub Mentioned :
    (Function → List (Option Str)) → (Inst → List (Option Str)) → List Function → Str → Type 0
Mentioned heads names fs n =
    Any (λ f. Names n (heads f) ⊎ Any (λ b. Any (λ i. Names n (names i)) b.insts) f.blocks) fs

Has-append : (xs : UsedSet) (y n : Str) → Has (xs ++ y ∷ []) n ↔ (Has xs n ⊎ (y ≡ n))
unfolding has_text
Has-append [] y n = ground (arith, same_text_iff y n)
Has-append (x ∷ xs) y n = ground (arith, Has-append xs y n)

pub Has-used_set_add :
    (set : UsedSet) (o : Option Str) (n : Str)
    → Has (used_set_add set o) n ↔ (Has set n ⊎ (o ≡ some n))
unfolding used_set_add
Has-used_set_add set none n = (inl, λ h. elim h [ inl g ↦ g | inr e ↦ cc ])
Has-used_set_add set (some y) n = elim (Bool-cases (has_text set y)) [
  | inr new ↦ ground (arith, new, Has-append set y n)
  | inl old ↦ rw old (inl, λ h. elim h [ inl g ↦ g | inr e ↦ rw (some_inj e) at old ])
]
  where
    some_inj : some y ≡ some n → y ≡ n
    some_inj e = cc

pub Has-add_all :
    (set : UsedSet) (os : List (Option Str)) (n : Str)
    → Has (add_all set os) n ↔ (Has set n ⊎ Names n os)
unfolding add_all
Has-add_all set [] n = (inl, λ h. elim h [ inl g ↦ g | inr e ↦ absurd e ])
Has-add_all set (o ∷ os) n =
    ground (arith, Has-add_all (used_set_add set o) os n, Has-used_set_add set o n)

module _ (heads : Function → List (Option Str)) (names : Inst → List (Option Str)) where
  Has-collect_insts :
      (set : UsedSet) (is : List Inst) (n : Str)
      → Has (collect_insts heads names set is) n ↔ (Has set n ⊎ Any (λ i. Names n (names i)) is)
  unfolding collect_insts
  Has-collect_insts set [] n = (inl, λ h. elim h [ inl g ↦ g | inr e ↦ absurd e ])
  Has-collect_insts set (i ∷ is) n =
      ground (arith, Has-collect_insts (add_all set (names i)) is n, Has-add_all set (names i) n)

  pub Has-collect_blocks :
      (set : UsedSet) (bs : List Block) (n : Str)
      → Has (collect_blocks heads names set bs) n
        ↔ (Has set n ⊎ Any (λ b. Any (λ i. Names n (names i)) b.insts) bs)
  unfolding collect_blocks
  Has-collect_blocks set [] n = (inl, λ h. elim h [ inl g ↦ g | inr e ↦ absurd e ])
  Has-collect_blocks set (b ∷ bs) n = ground (
    arith,
    Has-collect_blocks (collect_insts heads names set b.insts) bs n,
    Has-collect_insts set b.insts n,
  )

  pub Has-collect_functions :
      (set : UsedSet) (fs : List Function) (n : Str)
      → Has (collect_functions heads names set fs) n ↔ (Has set n ⊎ Mentioned heads names fs n)
  unfolding collect_functions
  Has-collect_functions set [] n = (inl, λ h. elim h [ inl g ↦ g | inr e ↦ absurd e ])
  Has-collect_functions set (f ∷ fs) n = ground (
    arith,
    Has-collect_functions (collect_blocks heads names (add_all set (heads f)) f.blocks) fs n,
    Has-collect_blocks (add_all set (heads f)) f.blocks n,
    Has-add_all set (heads f) n,
  )

-- Where signatures add no names.
pub Mentioned-iff :
    (names : Inst → List (Option Str)) (P : Inst → Type 0) (n : Str)
    (h : (i : Inst) → Names n (names i) ↔ P i) (fs : List Function)
    → Mentioned (λ _. []) names fs n ↔ Any (λ f. Any (λ b. Any P b.insts) f.blocks) fs
Mentioned-iff names P n h fs =
    Any-iff (λ f. ground (arith, Any-iff (λ b. Any-iff h b.insts) f.blocks)) fs

pub Names-append :
    (n : Str) (xs ys : List (Option Str)) → Names n (xs ++ ys) ↔ (Names n xs ⊎ Names n ys)
Names-append n [] ys = ground arith
Names-append n (x ∷ xs) ys = ground (arith, Names-append n xs ys)
