-- ===== src/Optlir/Reach/Edges.antt =====
-- src/optlir/local.c: the edges between blocks that the search of `mark_reachable_blocks` follows.
use alkyl.Prelude.{
  ℕ, ◌≡◌, refl, ◌↔◌, ◌⊎◌, inl, inr, true, Option, none, some, List, [], ◌∷◌, ◌==◌, arith, Str, Any,
  Any-iff, Bool-cases,
}
use alkyl.Ir.{Value, Inst, Block}
use alkyl.Ir.Op
use alkyl.Ir.Names.{val_label}
use alkyl.Optlir.Reach.{
  label_text, is_label, first_arg, is_some, branch_labels, find_label, find_block_by_label,
  insts_at,
}
use alkyl.Optlir.Calls.Kept.{HasText}

-- The value is a label.
abbrev pub IsLabel : Option Value → Type 0
IsLabel none = ⊥
IsLabel (some v) = v.kind ≡ val_label

-- The value is there.
abbrev pub IsSome : Option Value → Type 0
IsSome none = ⊥
IsSome (some v) = Unit

-- The first argument of a call or branch is the label `n`.
abbrev pub FirstIs : List (Option Value) → Str → Type 0
FirstIs [] n = ⊥
FirstIs (v ∷ vs) n = HasText val_label v n

-- The instruction can go to the label `n`: it is a JUMP to it, or a CONDI with a condition whose true
-- branch is a label and one of whose branches is `n`.
abbrev pub GoesTo : Inst → Str → Type 0
GoesTo i n =
    ((i.op ≡ Op.jump) × HasText val_label i.op1 n)
    ⊎ ((i.op ≡ Op.condi)
        × IsSome i.op1
        × IsLabel i.op2
        × (HasText val_label i.op2 n ⊎ FirstIs i.args n))

-- An instruction of the block at `j` can go to a label whose first block is at `k`.
abbrev pub Edge : List Block → ℕ → ℕ → Type 0
Edge bs j k = Any (λ i. (n : Str) × GoesTo i n × (find_label bs n ≡ some k)) (insts_at bs j)

-- The same in the words of the code.
abbrev pub Leads : List Block → ℕ → ℕ → Type 0
Leads bs j k =
    Any (λ i. Any (λ t. find_block_by_label bs t ≡ some k) (branch_labels i)) (insts_at bs j)

find_named :
    (bs : List Block) (o : Option Str) (k : ℕ)
    → (find_block_by_label bs o ≡ some k) ↔ ((n : Str) × (o ≡ some n) × (find_label bs n ≡ some k))
unfolding find_block_by_label
find_named bs none k = (λ e. cc, λ h. absurd (none_some h.1))
  where
    none_some : {n : Str} → none ≡ some n → ⊥
    none_some e = cc
find_named bs (some s) k = (λ e. (s, refl, e), λ h. rename h.1 h.2)
  where
    rename : {n : Str} → some s ≡ some n → find_label bs n ≡ some k → find_label bs s ≡ some k
    rename e h = cc

find_text :
    (bs : List Block) (o : Option Value) (k : ℕ)
    → (find_block_by_label bs (label_text o) ≡ some k)
      ↔ ((n : Str) × HasText val_label o n × (find_label bs n ≡ some k))
unfolding find_block_by_label label_text
find_text bs none k = (λ e. cc, λ h. absurd h.1)
find_text bs (some v) k = elim (Bool-cases (v.kind == val_label)) [
  | inr e ↦ rw e (λ h. cc, λ h. absurd (ground (arith, e, h.1.0)))
  | inl e ↦ rw e (
    λ h.
        let found = (find_named bs v.str_val k).0 h in
        (found.0, (ground (arith, e), found.1), found.2),
    λ h. (find_named bs v.str_val k).1 (h.0, h.1.1, h.2),
  )
]

find_first :
    (bs : List Block) (vs : List (Option Value)) (k : ℕ)
    → (find_block_by_label bs (label_text (first_arg vs)) ≡ some k)
      ↔ ((n : Str) × FirstIs vs n × (find_label bs n ≡ some k))
unfolding first_arg find_block_by_label label_text
find_first bs [] k = (λ e. cc, λ h. absurd h.1)
find_first bs (v ∷ vs) k = find_text bs v k

is_label_iff : (o : Option Value) → (is_label o ≡ true) ↔ IsLabel o
unfolding is_label
is_label_iff none = (λ e. cc, λ e. absurd e)
is_label_iff (some v) = ground arith

pub is_some_iff : (o : Option Value) → (is_some o ≡ true) ↔ IsSome o
unfolding is_some
is_some_iff none = (λ e. cc, λ e. absurd e)
is_some_iff (some v) = (λ e. tt, λ e. refl)

goes :
    (bs : List Block) (i : Inst) (k : ℕ)
    → Any (λ t. find_block_by_label bs t ≡ some k) (branch_labels i)
      ↔ ((n : Str) × GoesTo i n × (find_label bs n ≡ some k))
unfolding branch_labels
goes bs i k = ground (
  arith,
  find_text bs i.op1 k,
  find_text bs i.op2 k,
  find_first bs i.args k,
  is_label_iff i.op2,
  is_some_iff i.op1,
)

pub Leads-iff : (bs : List Block) (j k : ℕ) → Leads bs j k ↔ Edge bs j k
Leads-iff bs j k = Any-iff (λ i. goes bs i k) (insts_at bs j)
