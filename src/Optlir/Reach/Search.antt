-- ===== src/Optlir/Reach/Search.antt =====
-- src/optlir/local.c: what one round of the search of `mark_reachable_blocks` does to the set and the
-- stack.
use alkyl.Prelude.{
  ℕ, zero, suc, ◌+◌, ◌≤◌, ◌<◌, ◌≡◌, refl, ◌∙◌, ◌↔◌, ◌⊎◌, inl, inr, true, false, Option, none, some,
  List, [], ◌∷◌, ◌++◌, ◌==◌, if◌then◌else◌, arith, length, length-append, Str, Any, Bool-cases,
  Option-cases,
}
use alkyl.Ir.{Inst, Block}
use alkyl.Optlir.Reach.{
  Marks, find_label, find_block_by_label, branch_labels, has_label, block_set_has, mark_target,
  mark_targets, mark_insts,
}

-- The list has the position.
abbrev pub In : List ℕ → ℕ → Type 0
In set k = block_set_has set k ≡ true

pub In-append : (xs : List ℕ) (j k : ℕ) → In (xs ++ j ∷ []) k ↔ (In xs k ⊎ (j ≡ k))
unfolding block_set_has
In-append [] j k = ground arith
In-append (x ∷ xs) j k = ground (arith, In-append xs j k)

pub In-cons : (xs : List ℕ) (j k : ℕ) → In (j ∷ xs) k ↔ ((j ≡ k) ⊎ In xs k)
unfolding block_set_has
In-cons xs j k = ground arith

-- The positions below `n` that the set lacks.
pub missing_below : ℕ → List ℕ → ℕ
unfolding block_set_has
missing_below zero set = 0
missing_below (suc n) set = (if block_set_has set n then 0 else 1) + missing_below n set

missing_below-above :
    (n k : ℕ) (set : List ℕ) → n ≤ k → missing_below n (set ++ k ∷ []) ≡ missing_below n set
unfolding missing_below
missing_below-above zero k set h = refl
missing_below-above (suc n) k set h =
    ground (arith, In-append set k n, missing_below-above n k set (omega (arith, h)))

missing_below-append :
    (n k : ℕ) (set : List ℕ)
    → k < n
    → block_set_has set k ≡ false
    → suc (missing_below n (set ++ k ∷ [])) ≡ missing_below n set
unfolding missing_below
missing_below-append zero k set h e = absurd (omega (arith, h))
missing_below-append (suc n) k set h e = elim (Bool-cases (k == n)) [
  | inl at_n ↦
      ground
        (arith, last (ground arith), In-append set k n, missing_below-above n k set (ground arith))
  | inr below ↦
      ground (arith, In-append set k n, missing_below-append n k set (ground (arith, h, below)) e)
]
  where
    last : k ≡ n → block_set_has set n ≡ false
    last same = cc

find_label-bound :
    (bs : List Block) (label : Str) (k : ℕ) → find_label bs label ≡ some k → k < length bs
unfolding find_label
find_label-bound [] label k e = cc
find_label-bound (b ∷ bs) label k e = elim (Bool-cases (has_label b label)) [
  | inl here ↦ ground (arith, some_inj (rw here at e))
  | inr other ↦ elim (Option-cases (find_label bs label)) [
    | inl none_found ↦ absurd (none_some (rw (other, none_found) at e))
    | inr found ↦
        ground
          (arith, some_inj (rw (other, found.1) at e), find_label-bound bs label found.0 found.1)
  ]
]
  where
    some_inj : {m n : ℕ} → some m ≡ some n → m ≡ n
    some_inj e = cc

    none_some : none ≡ some k → ⊥
    none_some e = cc

pub find_block_by_label-bound :
    (bs : List Block) (label : Option Str) (k : ℕ)
    → find_block_by_label bs label ≡ some k
    → k < length bs
unfolding find_block_by_label
find_block_by_label-bound bs none k e = cc
find_block_by_label-bound bs (some label) k e = find_label-bound bs label k e

-- What marking does in a function of `n` blocks: the set and the stack grow, what is new in the set is
-- on the stack, and both grow by what the set lacked before.
abbrev pub Grows : ℕ → Marks → Marks → Type 0
Grows n s t =
    ((k : ℕ) → In s.reachable k → In t.reachable k)
    × ((k : ℕ) → In s.stack k → In t.stack k)
    × ((k : ℕ) → In t.reachable k → In s.reachable k ⊎ In t.stack k)
    × (length t.stack + missing_below n t.reachable ≡ length s.stack + missing_below n s.reachable)
    × (length t.reachable + missing_below n t.reachable
        ≡ length s.reachable + missing_below n s.reachable)

Grows-refl : (n : ℕ) (s : Marks) → Grows n s s
Grows-refl n s = (λ k h. h, λ k h. h, λ k h. inl h, refl, refl)

Grows-trans : (n : ℕ) (s t u : Marks) → Grows n s t → Grows n t u → Grows n s u
Grows-trans n s t u g h = (
  λ k e. h.0 k (g.0 k e),
  λ k e. h.1 k (g.1 k e),
  λ k e. elim (h.2 k e) [
    | inr new ↦ inr new
    | inl old ↦ elim (g.2 k old) [ inl older ↦ inl older | inr on ↦ inr (h.1 k on) ]
  ],
  h.3 ∙ g.3,
  h.4 ∙ g.4,
)

Grows-mark_target :
    (n : ℕ) (s : Marks) (o : Option ℕ) (h : (k : ℕ) → o ≡ some k → k < n)
    → Grows n s (mark_target s o) × ((k : ℕ) → o ≡ some k → In (mark_target s o).reachable k)
unfolding mark_target
Grows-mark_target n s none h = (Grows-refl n s, λ k e. cc)
Grows-mark_target n s (some k) h = elim (Bool-cases (block_set_has s.reachable k)) [
  | inl old ↦ rw old (Grows-refl n s, λ j e. named old e)
  | inr new ↦ rw new (
    (
      λ j e. (In-append s.reachable k j).1 (inl e),
      λ j e. (In-cons s.stack k j).1 (inr e),
      λ j e. elim ((In-append s.reachable k j).0 e) [
        | inl e1 ↦ inl e1
        | inr e1 ↦ inr ((In-cons s.stack k j).1 (inl e1))
      ],
      omega (arith, missing_below-append n k s.reachable (h k refl) new),
      omega (
        arith,
        missing_below-append n k s.reachable (h k refl) new,
        length-append s.reachable (k ∷ []),
      ),
    ),
    λ j e. (In-append s.reachable k j).1 (inr (position e)),
  )
]
  where
    position : {j : ℕ} → some k ≡ some j → k ≡ j
    position e = cc

    named : {j : ℕ} → In s.reachable k → some k ≡ some j → In s.reachable j
    named old e = cc

-- Every position that one of the labels leads to is marked.
pub Grows-mark_targets :
    (bs : List Block) (s : Marks) (ts : List (Option Str))
    → Grows (length bs) s (mark_targets bs s ts)
      × ((k : ℕ)
          → Any (λ t. find_block_by_label bs t ≡ some k) ts
          → In (mark_targets bs s ts).reachable k)
unfolding mark_targets
Grows-mark_targets bs s [] = (Grows-refl (length bs) s, λ k e. absurd e)
Grows-mark_targets bs s (t ∷ ts) =
    let first =
      Grows-mark_target (length bs) s (find_block_by_label bs t) (find_block_by_label-bound bs t) in
    let rest = Grows-mark_targets bs (mark_target s (find_block_by_label bs t)) ts in
    (
      Grows-trans (length bs) s (mark_target s (find_block_by_label bs t))
          (mark_targets bs (mark_target s (find_block_by_label bs t)) ts) first.0 rest.0,
      λ k e. elim e [ inl here ↦ rest.0.0 k (first.1 k here) | inr later ↦ rest.1 k later ],
    )

pub Grows-mark_insts :
    (bs : List Block) (s : Marks) (is : List Inst)
    → Grows (length bs) s (mark_insts bs s is)
      × ((k : ℕ)
          → Any (λ i. Any (λ t. find_block_by_label bs t ≡ some k) (branch_labels i)) is
          → In (mark_insts bs s is).reachable k)
unfolding mark_insts
Grows-mark_insts bs s [] = (Grows-refl (length bs) s, λ k e. absurd e)
Grows-mark_insts bs s (i ∷ is) =
    let first = Grows-mark_targets bs s (branch_labels i) in
    let rest = Grows-mark_insts bs (mark_targets bs s (branch_labels i)) is in
    (
      Grows-trans (length bs) s (mark_targets bs s (branch_labels i))
          (mark_insts bs (mark_targets bs s (branch_labels i)) is) first.0 rest.0,
      λ k e. elim e [ inl here ↦ rest.0.0 k (first.1 k here) | inr later ↦ rest.1 k later ],
    )

pub missing_below-nil : (n : ℕ) → missing_below n [] ≡ n
unfolding missing_below
missing_below-nil zero = refl
missing_below-nil (suc n) = omega (arith, missing_below-nil n)

pub missing_below-start : (n : ℕ) → suc (missing_below (suc n) (0 ∷ [])) ≡ suc n
unfolding block_set_has
missing_below-start n =
    omega (arith, missing_below-append (suc n) 0 [] (omega arith) refl, missing_below-nil (suc n))

pub In-below : (n : ℕ) (set : List ℕ) → missing_below n set ≡ 0 → (k : ℕ) → k < n → In set k
unfolding missing_below
In-below zero set e k h = absurd (omega (arith, h))
In-below (suc n) set e k h = elim (Bool-cases (k == n)) [
  | inl at_n ↦ last (ground (arith, at_n)) (ground (arith, e))
  | inr below ↦ In-below n set (ground (arith, e)) k (ground (arith, h, below))
]
  where
    last : k ≡ n → block_set_has set n ≡ true → In set k
    last same h = cc
