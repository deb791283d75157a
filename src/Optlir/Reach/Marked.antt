-- ===== src/Optlir/Reach/Marked.antt =====
-- src/optlir/local.c: where the blocks that labels lead to have a property, so do all that the search
-- of `mark_reachable_blocks` marks.
use alkyl.Prelude.{
  ℕ, ◌≡◌, refl, sym, inl, inr, Option, none, some, List, [], ◌∷◌, Str, Any, Bool-cases,
}
use alkyl.Ir.{Inst, Block}
use alkyl.Optlir.Reach.{
  Marks, find_block_by_label, branch_labels, block_set_has, mark_target, mark_targets, mark_insts,
}
use alkyl.Optlir.Reach.Search.{In, In-append, In-cons}

abbrev pub Among : (ℕ → Type 0) → List ℕ → Type 0
Among P set = (k : ℕ) → In set k → P k

Among-mark_target :
    (P : ℕ → Type 0) (s : Marks) (o : Option ℕ) (h : (k : ℕ) → o ≡ some k → P k)
    → Among P s.reachable × Among P s.stack
    → Among P (mark_target s o).reachable × Among P (mark_target s o).stack
unfolding mark_target
Among-mark_target P s none h g = g
Among-mark_target P s (some k) h g = elim (Bool-cases (block_set_has s.reachable k)) [
  | inl e ↦ rw e g
  | inr e ↦ rw e (
    λ j m. elim ((In-append s.reachable k j).0 m) [
      | inl old ↦ g.0 j old
      | inr new ↦ rw (sym new) (h k refl)
    ],
    λ j m. elim ((In-cons s.stack k j).0 m) [
      | inl new ↦ rw (sym new) (h k refl)
      | inr old ↦ g.1 j old
    ],
  )
]

Among-mark_targets :
    (P : ℕ → Type 0) (bs : List Block) (s : Marks) (ts : List (Option Str))
    (h : (k : ℕ) → Any (λ t. find_block_by_label bs t ≡ some k) ts → P k)
    → Among P s.reachable × Among P s.stack
    → Among P (mark_targets bs s ts).reachable × Among P (mark_targets bs s ts).stack
unfolding mark_targets
Among-mark_targets P bs s [] h g = g
Among-mark_targets P bs s (t ∷ ts) h g =
    Among-mark_targets P bs (mark_target s (find_block_by_label bs t)) ts (λ k e. h k (inr e))
      (Among-mark_target P s (find_block_by_label bs t) (λ k e. h k (inl e)) g)

pub Among-mark_insts :
    (P : ℕ → Type 0) (bs : List Block) (s : Marks) (is : List Inst)
    (h : (k : ℕ)
      → Any (λ i. Any (λ t. find_block_by_label bs t ≡ some k) (branch_labels i)) is
      → P k)
    → Among P s.reachable × Among P s.stack
    → Among P (mark_insts bs s is).reachable × Among P (mark_insts bs s is).stack
unfolding mark_insts
Among-mark_insts P bs s [] h g = g
Among-mark_insts P bs s (i ∷ is) h g =
    Among-mark_insts P bs (mark_targets bs s (branch_labels i)) is (λ k e. h k (inr e))
      (Among-mark_targets P bs s (branch_labels i) (λ k e. h k (inl e)) g)
