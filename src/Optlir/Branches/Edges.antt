-- ===== src/Optlir/Branches/Edges.antt =====
-- src/optlir/local.c: folding branches adds no edge between blocks.
use alkyl.Prelude.{
  ℕ, zero, suc, ◌≡◌, refl, ◌⊎◌, inl, inr, true, not, ◌&&◌, Option, none, some, List, [], ◌∷◌, ◌==◌,
  map, arith, Any, All, Str, Bool-cases,
}
use alkyl.Ir.{Value, Inst, Block, Function}
use alkyl.Ir.Op
use alkyl.Ir.Names.{val_label}
use alkyl.Optlir.Calls.Kept.{HasText}
use alkyl.Optlir.Reach.{first_arg, is_some, find_label, insts_at}
use alkyl.Optlir.Reach.Edges.{IsLabel, FirstIs, GoesTo, Edge, is_some_iff}
use alkyl.Optlir.Reach.Kept.{Reaches, entry, along}
use alkyl.Optlir.Branches.{
  ConstVal, get_const_for_value, value_text, target_label, alir_val_label, jump_to, fold_inst,
  fold_blocks, fold_branches_function,
}

-- Both branches of a CONDI are labels.
abbrev pub IsBranch : Inst → Type 0
IsBranch i = i.op ≡ Op.condi → IsLabel i.op2 × IsLabel (first_arg i.args)

label_has : (o : Option Value) (n : Str) → IsLabel o → value_text o ≡ some n → HasText val_label o n
unfolding value_text
label_has none n h e = absurd h
label_has (some v) n h e = (h, e)

first_has :
    (vs : List (Option Value)) (n : Str)
    → IsLabel (first_arg vs)
    → value_text (first_arg vs) ≡ some n
    → FirstIs vs n
unfolding first_arg
first_has [] n h e = absurd h
first_has (v ∷ vs) n h e = label_has v n h e

target_label-is :
    (c : ConstVal) (i : Inst) (n : Str)
    → IsLabel i.op2
    → IsLabel (first_arg i.args)
    → target_label c i ≡ some n
    → HasText val_label i.op2 n ⊎ FirstIs i.args n
unfolding target_label
target_label-is c i n h k e = elim (Bool-cases (not (c.int_val == 0) && is_some i.op2)) [
  | inl holds ↦ inl (label_has i.op2 n h (rw holds at e))
  | inr other ↦ elim (Bool-cases (c.int_val == 0)) [
    | inl zero_cond ↦ inr (first_has i.args n k (rw (other, zero_cond) at e))
    | inr more ↦ absurd (none_some (rw (other, more) at e))
  ]
]
  where
    none_some : none ≡ some n → ⊥
    none_some e = cc

GoesTo-jump_to :
    (i : Inst) (o : Option Str) (n : Str)
    → ((m : Str) → o ≡ some m → GoesTo i m)
    → GoesTo (jump_to i o) n
    → GoesTo i n
unfolding jump_to alir_val_label
GoesTo-jump_to i none n h g = g
GoesTo-jump_to i (some m) n h g = elim g [
  | inl jump ↦ h n jump.1.1
  | inr branch ↦ absurd (omega (arith, branch.0))
]

GoesTo-fold_inst :
    (widen : ℕ → ℕ) (i : Inst) (n : Str) → IsBranch i → GoesTo (fold_inst widen i) n → GoesTo i n
unfolding fold_inst
GoesTo-fold_inst widen i n h g =
    let cond = get_const_for_value widen i.op1 in
    elim (Bool-cases (i.op == Op.condi && (is_some i.op1 && cond.is_const))) [
      | inr other ↦ rw other at g
      | inl folds ↦
          let is_condi : i.op ≡ Op.condi = ground (arith, folds) in
          let there : is_some i.op1 ≡ true = ground (arith, folds) in
          let labels = h is_condi in
          GoesTo-jump_to i (target_label cond i) n
            (λ m e. inr (
              is_condi,
              (is_some_iff i.op1).0 there,
              labels.0,
              target_label-is cond i m labels.0 labels.1 e,
            ))
            (rw folds at g)
    ]

has_label-fold :
    (widen : ℕ → ℕ) (bs : List Block) (n : Str)
    → find_label (fold_blocks widen bs) n ≡ find_label bs n
unfolding fold_blocks find_label
has_label-fold widen [] n = refl
has_label-fold widen (b ∷ bs) n = rw (has_label-fold widen bs n)

Any-map :
    (f : Inst → Inst) (P Q : Inst → Type 0) (is : List Inst) (R : Inst → Type 0)
    (h : (i : Inst) → R i → P (f i) → Q i)
    → All R is
    → Any P (map f is)
    → Any Q is
Any-map f P Q [] R h rs m = absurd m
Any-map f P Q (i ∷ is) R h rs m = elim m [
  | inl here ↦ inl (h i rs.0 here)
  | inr later ↦ inr (Any-map f P Q is R h rs.1 later)
]

Any-insts_at :
    (widen : ℕ → ℕ) (P Q : Inst → Type 0)
    (h : (i : Inst) → IsBranch i → P (fold_inst widen i) → Q i) (bs : List Block) (j : ℕ)
    → All (λ b. All IsBranch b.insts) bs
    → Any P (insts_at (fold_blocks widen bs) j)
    → Any Q (insts_at bs j)
unfolding fold_blocks insts_at
Any-insts_at widen P Q h [] j rs m = absurd m
Any-insts_at widen P Q h (b ∷ bs) zero rs m =
    Any-map (fold_inst widen) P Q b.insts IsBranch h rs.0 m
Any-insts_at widen P Q h (b ∷ bs) (suc j) rs m = Any-insts_at widen P Q h bs j rs.1 m

Edge-fold_blocks :
    (widen : ℕ → ℕ) (bs : List Block) (h : All (λ b. All IsBranch b.insts) bs) (j k : ℕ)
    → Edge (fold_blocks widen bs) j k
    → Edge bs j k
Edge-fold_blocks widen bs h j k e =
    Any-insts_at widen
      (λ i. (n : Str) × GoesTo i n × (find_label (fold_blocks widen bs) n ≡ some k))
      (λ i. (n : Str) × GoesTo i n × (find_label bs n ≡ some k))
      (λ i r m. (m.0, GoesTo-fold_inst widen i m.0 r m.1, rw (has_label-fold widen bs m.0) at m.2))
      bs j h e

Reaches-fold_blocks :
    (widen : ℕ → ℕ) (bs : List Block) (h : All (λ b. All IsBranch b.insts) bs) (k : ℕ)
    → Reaches (fold_blocks widen bs) k
    → Reaches bs k
Reaches-fold_blocks widen bs h k entry = entry
Reaches-fold_blocks widen bs h k (along {j = j} r e) =
    along (Reaches-fold_blocks widen bs h j r) (Edge-fold_blocks widen bs h j k e)

-- In a function where both branches of every CONDI are labels, `fold_branches_function` adds no edge
-- between two blocks, so that a block which the entry block reaches after it was reached before.
pub fold_branches_function-Reaches :
    (widen : ℕ → ℕ) (f : Function) (h : All (λ b. All IsBranch b.insts) f.blocks)
    → ((j k : ℕ) → Edge (fold_branches_function widen f).blocks j k → Edge f.blocks j k)
      × ((k : ℕ) → Reaches (fold_branches_function widen f).blocks k → Reaches f.blocks k)
unfolding fold_branches_function
fold_branches_function-Reaches widen f h =
    (Edge-fold_blocks widen f.blocks h, Reaches-fold_blocks widen f.blocks h)
