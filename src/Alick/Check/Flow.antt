-- ===== src/Alick/Check/Flow.antt =====
-- What a function without reports of `alick_check_cfg` looks like.
use mathlib.Core.List.{Memᴰ}
use mathlib.Core.List.Memᴰ
use alkyl.Prelude.{
  ℕ, ◌≡◌, refl, sym, ap, ◌∙◌, ◌↔◌, ◌⊎◌, inl, inr, true, not, Option, none, some, List, [], ◌∷◌,
  ◌++◌, arith, All, length, length-append, append-eq-nil, append_last, Str, Bool-cases,
}
use alkyl.Ir.{Value, Inst, Block, Function}
use alkyl.Ir.Op
use alkyl.Ir.Names.{val_label}
use alkyl.Alick.Labels.{streq_lit, streq_lit_iff}
use alkyl.Alick.Report.{
  Problem, report, no_terminator, jump_not_label, jump_unknown, true_branch_not_label,
  true_branch_unknown, false_branch_not_label, false_branch_unknown,
}
use alkyl.Alick.Check.{
  find_block, is_terminator, check_target, check_branches, first_arg, last_of, front_of,
  check_early, check_flow_of, check_flow, cfg_blocks, alick_check_cfg,
}

abbrev pub IsTerminator : ℕ → Type 0
IsTerminator op = (op ≡ Op.ret) ⊎ (op ≡ Op.jump) ⊎ (op ≡ Op.condi) ⊎ (op ≡ Op.panic)

-- A block of this label.
abbrev pub IsLabelled : List Block → Option Str → Type 0
IsLabelled bs label = (b : Block) × Memᴰ b bs × (b.label ≡ label)

-- A label operand that names a block of the function.
unfoldable pub IsTarget : Function → Option Value → Type 0
IsTarget f v = (u : Value) × (v ≡ some u) × (u.kind ≡ val_label) × IsLabelled f.blocks u.str_val

-- One block: it ends in its only terminator, and the targets of that exist.
pub record IsSound (f : Function) (is : List Inst) : Type 0 where
  pub front : List Inst
  pub term : Inst
  pub split : is ≡ front ++ term ∷ []
  pub ends : IsTerminator term.op
  pub once : All (λ i. ¬ IsTerminator i.op) front
  pub jump : term.op ≡ Op.jump → IsTarget f term.op1
  pub true_branch : term.op ≡ Op.condi → IsTarget f term.op2
  pub false_branch : term.op ≡ Op.condi → IsTarget f (first_arg term.args)

is_terminator_iff : (op : ℕ) → (is_terminator op ≡ true) ↔ IsTerminator op
unfolding is_terminator
is_terminator_iff op = ground arith

find_block-IsLabelled :
    (bs : List Block) (l : Option Str) → find_block bs l ≡ true → IsLabelled bs l
unfolding find_block
find_block-IsLabelled [] l e = cc
find_block-IsLabelled (b ∷ bs) l e = elim (Bool-cases (streq_lit b.label l)) [
  | inl same ↦ (b, Memᴰ.head refl, (streq_lit_iff b.label l).0 same)
  | inr other ↦ let (c, m, q) = find_block-IsLabelled bs l (rw other at e) in (c, Memᴰ.tail m, q)
]

IsLabelled-find_block :
    (bs : List Block) (l : Option Str) → IsLabelled bs l → find_block bs l ≡ true
unfolding find_block
IsLabelled-find_block [] l h = absurd (Memᴰ.not-nil h.1)
IsLabelled-find_block (b ∷ bs) l (c, m, q) = elim (Memᴰ.cases_cons m) [
  | inl here ↦ ground (arith, ap (λ (x : Block). x.label) here, streq_lit_iff b.label l)
  | inr later ↦ ground (arith, IsLabelled-find_block bs l (c, later, q))
]

check_target-eq-nil :
    (f : Function) (v : Option Value) (p q : Problem) → (check_target f v p q ≡ []) ↔ IsTarget f v
unfolding check_target IsTarget
check_target-eq-nil f none p q = (λ e. cc, λ h. cc (h.1))
check_target-eq-nil f (some v) p q = (
  λ e. (v, refl, ground arith, find_block-IsLabelled f.blocks v.str_val (ground arith)),
  λ (u, same, kind, l). ground (arith, IsLabelled-find_block f.blocks u.str_val l),
)

last_of_lem : (i : Inst) (is : List Inst) → i ∷ is ≡ front_of i is ++ last_of i is ∷ []
unfolding front_of last_of
last_of_lem i [] = refl
last_of_lem i (j ∷ is) = ap (λ r. i ∷ r) (last_of_lem j is)

check_early-eq-nil : (is : List Inst) → (check_early is ≡ []) ↔ All (λ i. ¬ IsTerminator i.op) is
unfolding check_early
check_early-eq-nil [] = (λ _. tt, λ _. refl)
check_early-eq-nil (i ∷ is) = ground (arith, check_early-eq-nil is, is_terminator_iff i.op)

check_branches-eq-nil :
    (f : Function) (t : Inst)
    → (check_branches f t ≡ []) ↔ (
        (t.op ≡ Op.jump → IsTarget f t.op1)
        × (t.op ≡ Op.condi → IsTarget f t.op2)
        × (t.op ≡ Op.condi → IsTarget f (first_arg t.args)))
unfolding check_branches
check_branches-eq-nil f t = ground (
  arith,
  check_target-eq-nil f t.op1 jump_not_label jump_unknown,
  check_target-eq-nil f t.op2 true_branch_not_label true_branch_unknown,
  check_target-eq-nil f (first_arg t.args) false_branch_not_label false_branch_unknown,
  append-eq-nil (check_target f t.op2 true_branch_not_label true_branch_unknown)
      (check_target f (first_arg t.args) false_branch_not_label false_branch_unknown),
)

-- A block whose last instruction is `t`, after `front`.
check_parts-eq-nil :
    (f : Function) (t : Inst) (front : List Inst)
    → (report (not (is_terminator t.op)) no_terminator ++ (check_branches f t ++ check_early front)
        ≡ [])
      ↔ (IsTerminator t.op × (check_branches f t ≡ []) × All (λ i. ¬ IsTerminator i.op) front)
check_parts-eq-nil f t front = ground (
  arith,
  is_terminator_iff t.op,
  append-eq-nil (report (not (is_terminator t.op)) no_terminator)
      (check_branches f t ++ check_early front),
  append-eq-nil (check_branches f t) (check_early front),
  check_early-eq-nil front,
)

check_flow-eq-nil : (f : Function) (is : List Inst) → (check_flow f is ≡ []) ↔ IsSound f is
unfolding check_flow check_flow_of
check_flow-eq-nil f [] =
    (λ e. cc, λ h. absurd (omega (arith, ap length h.split, length-append h.front (h.term ∷ []))))
check_flow-eq-nil f (i ∷ is) = (
  λ e.
      let (ends, branches, once) = (check_parts-eq-nil f (last_of i is) (front_of i is)).0 e in
      let (jump, true_branch, false_branch) = (check_branches-eq-nil f (last_of i is)).0 branches in
      record {
        front = front_of i is;
        term = last_of i is;
        split = last_of_lem i is;
        ends = ends;
        once = once;
        jump = jump;
        true_branch = true_branch;
        false_branch = false_branch;
      },
  λ h.
      let (front, term) = append_last _ _ _ _ (sym (last_of_lem i is) ∙ h.split) in
      rw (front, term)
        ((check_parts-eq-nil f h.term h.front).1 (
          h.ends,
          (check_branches-eq-nil f h.term).1 (h.jump, h.true_branch, h.false_branch),
          h.once,
        )),
)

cfg_blocks-eq-nil :
    (f : Function) (bs : List Block) → (cfg_blocks f bs ≡ []) ↔ All (λ b. IsSound f b.insts) bs
unfolding cfg_blocks
cfg_blocks-eq-nil f [] = (λ _. tt, λ _. refl)
cfg_blocks-eq-nil f (b ∷ bs) = ground (
  arith,
  append-eq-nil (check_flow f b.insts) (cfg_blocks f bs),
  check_flow-eq-nil f b.insts,
  cfg_blocks-eq-nil f bs,
)

-- `alick_check_cfg` reports nothing exactly when every block of the function is sound: it ends in a
-- terminator, has no other, and the targets of a jump or branch are labels of blocks of the function.
pub alick_check_cfg-eq-nil :
    (f : Function) → (alick_check_cfg f ≡ []) ↔ All (λ b. IsSound f b.insts) f.blocks
unfolding alick_check_cfg
alick_check_cfg-eq-nil f = cfg_blocks-eq-nil f f.blocks
