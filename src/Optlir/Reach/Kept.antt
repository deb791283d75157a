-- ===== src/Optlir/Reach/Kept.antt =====
-- src/optlir/local.c: `mark_reachable_blocks` finds just the blocks that the entry block reaches, and
-- `remove_unreachable_blocks_function` keeps just these.
use alkyl.Prelude.{
  ℕ, zero, suc, ◌+◌, ◌≤◌, ◌<◌, ◌≡◌, refl, sym, ◌∙◌, ◌↔◌, ◌⊎◌, inl, inr, some, List, [], ◌∷◌, ◌==◌,
  arith, SieveFrom, SieveFrom-length, SieveFrom-all, ◌-◌, ◌%◌, ◌^◌, length, Bool-cases,
}
use alkyl.Ir.{Block, Function}
use alkyl.Optlir.Reach.{
  Marks, block_set_has, mark_insts, insts_at, search_blocks, mark_reachable_blocks, keep_blocks,
  keep_reachable, remove_unreachable, remove_unreachable_blocks_function,
}
use alkyl.Optlir.Reach.Search.{
  In, In-cons, missing_below, missing_below-start, Grows-mark_insts, In-below,
}
use alkyl.Optlir.Reach.Edges.{Edge, Leads, Leads-iff}
use alkyl.Optlir.Reach.Marked.{Among, Among-mark_insts}

-- The entry block, which is the first, reaches the block at this position.
pub data Reaches (bs : List Block) : ℕ → Type 0 where
  entry : Reaches bs 0
  along : {j k : ℕ} → Reaches bs j → Edge bs j k → Reaches bs k

-- The edges of the blocks in the set lead into it, but for those on the stack.
abbrev IsExplored : List Block → List ℕ → List ℕ → Type 0
IsExplored bs set stack = (j : ℕ) → In set j → In stack j ⊎ ((k : ℕ) → Leads bs j k → In set k)

IsExplored-mark_insts :
    (bs : List Block) (set stack : List ℕ) (b : ℕ)
    → IsExplored bs set (b ∷ stack)
    → IsExplored bs
        (mark_insts bs (record { reachable = set; stack = stack }) (insts_at bs b)).reachable
        (mark_insts bs (record { reachable = set; stack = stack }) (insts_at bs b)).stack
IsExplored-mark_insts bs set stack b h j m =
    let s : Marks = record { reachable = set; stack = stack } in
    let grows = Grows-mark_insts bs s (insts_at bs b) in
    elim (grows.0.2 j m) [
      | inr new ↦ inl new
      | inl old ↦ elim (h j old) [
        | inr done ↦ inr (λ k e. grows.0.0 k (done k e))
        | inl on ↦ elim ((In-cons stack b j).0 on) [
          | inr below ↦ inl (grows.0.1 j below)
          | inl top ↦ inr (λ k e. grows.1 k (rw top e))
        ]
      ]
    ]

In-Reaches :
    (bs : List Block) (set : List ℕ) (start : In set 0) (closed : IsExplored bs set []) (k : ℕ)
    → Reaches bs k
    → In set k
unfolding block_set_has
In-Reaches bs set start closed k entry = start
In-Reaches bs set start closed k (along {j = j} r e) =
    elim (closed j (In-Reaches bs set start closed j r)) [
      | inl bad ↦ cc
      | inr done ↦ done k ((Leads-iff bs j k).1 e)
    ]

-- With fuel for the stack and for what the set lacks, the loop ends, and the set then has just the
-- blocks that are reached.
search_blocks_lem :
    (fuel : ℕ) (bs : List Block) (set stack : List ℕ)
    → length stack + missing_below (length bs) set ≤ fuel
    → length set + missing_below (length bs) set ≡ length bs
    → In set 0
    → IsExplored bs set stack
    → Among (Reaches bs) set × Among (Reaches bs) stack
    → (final : List ℕ) × (search_blocks fuel bs set stack ≡ some final)
      × (length final + missing_below (length bs) final ≡ length bs)
      × ((k : ℕ) → In final k ↔ Reaches bs k)
unfolding search_blocks
search_blocks_lem fuel bs set [] enough count start h among =
    (set, refl, count, λ k. (among.0 k, In-Reaches bs set start h k))
search_blocks_lem zero bs set (b ∷ stack) enough count start h among =
    absurd (omega (arith, enough))
search_blocks_lem (suc fuel) bs set (b ∷ stack) enough count start h among =
    let s : Marks = record { reachable = set; stack = stack } in
    let t = mark_insts bs s (insts_at bs b) in
    let grows = (Grows-mark_insts bs s (insts_at bs b)).0 in
    search_blocks_lem fuel bs t.reachable t.stack (omega (arith, enough, grows.3)) (grows.4 ∙ count)
      (grows.0 0 start) (IsExplored-mark_insts bs set stack b h)
      (Among-mark_insts (Reaches bs) bs s (insts_at bs b)
        (λ k e. along (among.1 b ((In-cons stack b b).1 (inl refl))) ((Leads-iff bs b k).0 e))
        (among.0, λ k m. among.1 k ((In-cons stack b k).1 (inr m))))

mark_reachable_blocks_lem :
    (b : Block) (bs : List Block)
    → (final : List ℕ) × (mark_reachable_blocks (b ∷ bs) ≡ some final)
      × (length final + missing_below (length (b ∷ bs)) final ≡ length (b ∷ bs))
      × ((k : ℕ) → In final k ↔ Reaches (b ∷ bs) k)
unfolding mark_reachable_blocks block_set_has
mark_reachable_blocks_lem b bs =
    search_blocks_lem (length (b ∷ bs)) (b ∷ bs) (0 ∷ []) (0 ∷ [])
      (omega (arith, missing_below-start (length bs)))
      (omega (arith, missing_below-start (length bs))) refl (λ j m. inl m) (first, first)
  where
    first : Among (Reaches (b ∷ bs)) (0 ∷ [])
    first k m = elim ((In-cons [] 0 k).0 m) [ inl e ↦ rw (sym e) entry | inr e ↦ cc ]

keep_blocks-SieveFrom :
    (P : ℕ → Type 0) (set : List ℕ) (h : (k : ℕ) → In set k ↔ P k) (k : ℕ) (bs : List Block)
    → SieveFrom P k bs (keep_blocks set k bs)
unfolding keep_blocks
keep_blocks-SieveFrom P set h k [] = SieveFrom.done
keep_blocks-SieveFrom P set h k (b ∷ bs) = elim (Bool-cases (block_set_has set k)) [
  | inl e ↦ rw e (SieveFrom.kept ((h k).0 e) (keep_blocks-SieveFrom P set h (suc k) bs))
  | inr e ↦
      rw e (SieveFrom.removed (λ p. cc (e, (h k).1 p)) (keep_blocks-SieveFrom P set h (suc k) bs))
]

keep_reachable-SieveFrom :
    (P : ℕ → Type 0) (f : Function) (set : List ℕ) (counted : f.block_count ≡ length f.blocks)
    (fits : f.block_count < 2 ^ 32)
    (full : length set + missing_below (length f.blocks) set ≡ length f.blocks)
    (h : (k : ℕ) → In set k ↔ P k)
    → (g : Function) × (keep_reachable f (some set) ≡ some g)
      × SieveFrom P 0 f.blocks g.blocks
      × (g.block_count ≡ length g.blocks)
unfolding keep_reachable
keep_reachable-SieveFrom P f set counted fits full h =
    elim (Bool-cases (length set == f.block_count)) [
      | inl e ↦ (
        f,
        rw e,
        SieveFrom-all 0 f.blocks (λ j l. (h j).0 (
            In-below (length f.blocks) set (ground (arith, e, counted, full)) j
              (omega (arith, l)))),
        counted,
      )
      | inr e ↦
          let rest = keep_blocks-SieveFrom P set h 0 f.blocks in
          (
            record f {
              blocks = keep_blocks set 0 f.blocks;
              block_count =
                  (f.block_count + 2 ^ 32 - (length f.blocks - length (keep_blocks set 0 f.blocks)))
                  % 2 ^ 32;
            },
            rw e,
            rest,
            omega (arith, SieveFrom-length rest, counted, fits),
          )
    ]

remove_unreachable-SieveFrom :
    (f : Function) (bs : List Block) (e : f.blocks ≡ bs) (counted : f.block_count ≡ length f.blocks)
    (fits : f.block_count < 2 ^ 32)
    → (g : Function) × (remove_unreachable f bs ≡ some g)
      × SieveFrom (Reaches bs) 0 f.blocks g.blocks
      × (g.block_count ≡ length g.blocks)
unfolding remove_unreachable
remove_unreachable-SieveFrom f [] e counted fits = (f, refl, rw e SieveFrom.done, counted)
remove_unreachable-SieveFrom f (b ∷ bs) e counted fits =
    let marked = mark_reachable_blocks_lem b bs in
    rw marked.1
      (keep_reachable-SieveFrom (Reaches (b ∷ bs)) f marked.0 counted fits (rw e marked.2) marked.3)

-- In a function whose count of blocks is right and an `int`, `remove_unreachable_blocks_function` ends,
-- the blocks that it keeps are, in their order, just those that the entry block reaches over labels
-- of jumps and branches, and the count is right again.
pub remove_unreachable_blocks_function-SieveFrom :
    (f : Function) (counted : f.block_count ≡ length f.blocks) (fits : f.block_count < 2 ^ 32)
    → (g : Function) × (remove_unreachable_blocks_function f ≡ some g)
      × SieveFrom (Reaches f.blocks) 0 f.blocks g.blocks
      × (g.block_count ≡ length g.blocks)
unfolding remove_unreachable_blocks_function
remove_unreachable_blocks_function-SieveFrom f counted fits =
    remove_unreachable-SieveFrom f f.blocks refl counted fits
