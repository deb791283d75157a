-- ===== src/Optlir/Reach.antt =====
-- src/optlir/local.c: the search for the blocks that the entry block reaches, and the removal of the
-- others. A block of a function is its position among the function's blocks.
use alkyl.Prelude.{
  ℕ, zero, suc, ◌+◌, ◌-◌, ◌%◌, ◌^◌, Bool, true, false, ◌&&◌, ◌||◌, Option, none, some, List, [],
  ◌∷◌, ◌++◌, ◌==◌, if◌then◌else◌, length, Str, same_text,
}
use alkyl.Ir.{Value, Inst, Block, Function}
use alkyl.Ir.Op
use alkyl.Ir.Names.{val_label}
pub mod Search
pub mod Marked
pub mod Edges
pub mod Kept

-- The text of a label.
unfoldable pub label_text : Option Value → Option Str
label_text none = none
label_text (some v) = if v.kind == val_label then v.str_val else none

unfoldable pub is_label : Option Value → Bool
is_label none = false
is_label (some v) = v.kind == val_label

unfoldable pub has_label : Block → Str → Bool
unfolding same_text
has_label b label = elim b.label [ none ↦ false | some t ↦ same_text t label ]

-- The first block with the label.
unfoldable pub find_label : List Block → Str → Option ℕ
unfolding has_label
find_label [] label = none
find_label (b ∷ bs) label =
    if has_label b label
    then some 0
    else elim (find_label bs label) [ none ↦ none | some k ↦ some (suc k) ]

unfoldable pub find_block_by_label : List Block → Option Str → Option ℕ
unfolding find_label
find_block_by_label bs none = none
find_block_by_label bs (some label) = find_label bs label

unfoldable pub first_arg : List (Option Value) → Option Value
first_arg [] = none
first_arg (v ∷ vs) = v

unfoldable pub is_some : Option Value → Bool
is_some none = false
is_some (some v) = true

-- The labels that the search looks up for one instruction, in their order.
unfoldable pub branch_labels : Inst → List (Option Str)
unfolding label_text is_label first_arg is_some
branch_labels i =
    if i.op == Op.jump
    then label_text i.op1 ∷ []
    else if i.op == Op.condi && (is_some i.op1 && is_label i.op2)
    then label_text i.op2 ∷ label_text (first_arg i.args) ∷ []
    else []

unfoldable pub block_set_has : List ℕ → ℕ → Bool
block_set_has [] k = false
block_set_has (j ∷ set) k = j == k || block_set_has set k

-- The set `reachable` and the stack, whose top is the head.
pub record Marks : Type 0 where
  pub reachable : List ℕ
  pub stack : List ℕ

-- Marking a block that was found, and pushing it.
unfoldable pub mark_target : Marks → Option ℕ → Marks
unfolding block_set_has
mark_target s none = s
mark_target s (some k) =
    if block_set_has s.reachable k
    then s
    else record { reachable = s.reachable ++ k ∷ []; stack = k ∷ s.stack }

unfoldable pub mark_targets : List Block → Marks → List (Option Str) → Marks
unfolding mark_target find_block_by_label
mark_targets bs s [] = s
mark_targets bs s (t ∷ ts) = mark_targets bs (mark_target s (find_block_by_label bs t)) ts

unfoldable pub mark_insts : List Block → Marks → List Inst → Marks
unfolding mark_targets branch_labels
mark_insts bs s [] = s
mark_insts bs s (i ∷ is) = mark_insts bs (mark_targets bs s (branch_labels i)) is

-- The instructions of the block at a position.
unfoldable pub insts_at : List Block → ℕ → List Inst
insts_at [] k = []
insts_at (b ∷ bs) zero = b.insts
insts_at (b ∷ bs) (suc k) = insts_at bs k

-- The loop `while (stack_top > 0)`, on fuel; `none` when that runs out.
unfoldable pub search_blocks : ℕ → List Block → List ℕ → List ℕ → Option (List ℕ)
unfolding mark_insts insts_at
search_blocks k bs reachable [] = some reachable
search_blocks zero bs reachable (b ∷ stack) = none
search_blocks (suc k) bs reachable (b ∷ stack) =
    let s = mark_insts bs (record { reachable = reachable; stack = stack }) (insts_at bs b) in
    search_blocks k bs s.reachable s.stack

-- The function has blocks.
unfoldable pub mark_reachable_blocks : List Block → Option (List ℕ)
unfolding search_blocks
mark_reachable_blocks bs = search_blocks (length bs) bs (0 ∷ []) (0 ∷ [])

-- The blocks in the set, where the first is at position `k`.
unfoldable pub keep_blocks : List ℕ → ℕ → List Block → List Block
unfolding block_set_has
keep_blocks set k [] = []
keep_blocks set k (b ∷ bs) =
    if block_set_has set k then b ∷ keep_blocks set (suc k) bs else keep_blocks set (suc k) bs

unfoldable pub keep_reachable : Function → Option (List ℕ) → Option Function
unfolding keep_blocks
keep_reachable f none = none
keep_reachable f (some set) =
    if length set == f.block_count
    then some f
    else let rest = keep_blocks set 0 f.blocks in
      some (record f {
        blocks = rest;
        block_count = (f.block_count + 2 ^ 32 - (length f.blocks - length rest)) % 2 ^ 32;
      })

-- Without blocks nothing is done.
unfoldable pub remove_unreachable : Function → List Block → Option Function
unfolding keep_reachable mark_reachable_blocks
remove_unreachable f [] = some f
remove_unreachable f (b ∷ bs) = keep_reachable f (mark_reachable_blocks (b ∷ bs))

unfoldable pub remove_unreachable_blocks_function : Function → Option Function
unfolding remove_unreachable
remove_unreachable_blocks_function f = remove_unreachable f f.blocks
