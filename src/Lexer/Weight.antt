-- ===== src/Lexer/Weight.antt =====
-- What the steps of `lexer_next` do to the pending tokens and the open blocks, and to the text left.
use alkyl.Prelude.{
  ℕ, suc, ◌+◌, ◌-◌, ◌*◌, ◌≤◌, ◌<◌, [], ◌∷◌, ◌++◌, ◌≡◌, refl, ◌∙◌, ◌⊎◌, inl, inr, true, false, List,
  Str, length, length-append, ltb, leb, Bool-cases, arith,
}
use alkyl.Lexer.Token.{Token, Floats, unclosed_character_literal, token_lbrace, token_rbrace}
use alkyl.Lexer.Skip.{skip, skip_whitespace_and_comments, in_code}
use alkyl.Lexer.State.{
  Lexer, ahead, is_empty, report_if, move_to, catch_up, skip_blanks, bare_token,
}
use alkyl.Lexer.Indent.{new_indent, open_block, close_blocks, change_indent, opened}
use alkyl.Lexer.Next.{Lexed, is_eof, take_pending, queue_token, end_token}
use alkyl.Lexer.Behind.{IsBehind, IsBehind-both, drop-IsBehind, drop-behind, skip-IsBehind}

append-nonempty : {A : Type 0} (xs : List A) (x : A) → is_empty (xs ++ x ∷ []) ≡ false
append-nonempty [] x = refl
append-nonempty (y ∷ xs) x = refl

module _ {F : Floats} where
  -- The tokens that are pending, and the blocks that are open.
  abbrev pub weight : Lexer F → ℕ
  weight l = length l.pending_tokens + length l.indent_stack

  -- A bound on the calls before the end of the source.
  abbrev pub measure : Lexer F → ℕ
  measure l = 3 * length (ahead l) + weight l

  pub ahead-move_to :
      (l : Lexer F) (rest : Str) → IsBehind rest (ahead l) → ahead (move_to rest l) ≡ rest
  ahead-move_to l rest h =
      drop-behind rest l.src (IsBehind-both rest (ahead l) l.src h (drop-IsBehind l.pos l.src))

  pub ahead-skip_blanks :
      (l : Lexer F) → ahead (skip_blanks l) ≡ (skip l.settings.comment_style in_code (ahead l)).0
  unfolding skip_blanks catch_up skip_whitespace_and_comments
  ahead-skip_blanks l = ahead-move_to l _ (skip-IsBehind l.settings.comment_style in_code (ahead l))

  close_blocks-weight :
      (indent : ℕ) (stack : List ℕ) (l : Lexer F)
      → (weight (close_blocks indent stack l).1 ≡ length l.pending_tokens + length stack)
        × (ahead (close_blocks indent stack l).1 ≡ ahead l)
  unfolding close_blocks
  close_blocks-weight indent [] l = (refl, refl)
  close_blocks-weight indent (top ∷ stack) l = elim (Bool-cases (ltb indent top)) [
    | inl e ↦ elim (Bool-cases (leb 16 (length l.pending_tokens))) [
      | inl f ↦ rw (e, f, close_blocks) (refl, refl)
      | inr f ↦
          let more : Lexer F = record l {
            pending_tokens = l.pending_tokens ++ bare_token token_rbrace l.line 1 ∷ [];
          } in
          let (same, text) = close_blocks-weight indent stack more in
          rw (e, f, close_blocks)
            (
              omega (
                arith,
                same,
                length-append l.pending_tokens (bare_token token_rbrace l.line 1 ∷ []),
              ),
              text,
            )
    ]
    | inr e ↦ rw (e, close_blocks) (refl, refl)
  ]

  open_block-weight :
      (indent : ℕ) (l : Lexer F)
      → (weight (opened l (open_block indent l)).1 ≤ weight l + 2)
        × (ahead (opened l (open_block indent l)).1 ≡ ahead l)
  unfolding open_block
  open_block-weight indent l = elim (Bool-cases (leb 16 (length l.pending_tokens))) [
    | inl e ↦ rw e (omega arith, refl)
    | inr e ↦ elim (Bool-cases (leb 127 (length l.indent_stack))) [
      | inl f ↦ rw (e, f) (omega arith, refl)
      | inr f ↦
          rw (e, f)
            (
              omega (arith, length-append l.pending_tokens (bare_token token_lbrace l.line 1 ∷ [])),
              refl,
            )
    ]
  ]

  new_indent-end : (l : Lexer F) → ahead l ≡ [] → new_indent l ≡ 0
  unfolding new_indent
  new_indent-end l eof = rw eof

  -- At most a brace is added, and nothing at the end of the source.
  pub change_indent-weight :
      (l : Lexer F)
      → (weight (change_indent l).1 ≤ weight l + 2)
        × (ahead (change_indent l).1 ≡ ahead l)
        × (ahead l ≡ [] → weight (change_indent l).1 ≤ weight l)
  unfolding change_indent
  change_indent-weight l = elim (Bool-cases (ltb (length l.indent_stack) (new_indent l))) [
    | inl e ↦
        let (bound, text) = open_block-weight (new_indent l) l in
        rw e (bound, text, (λ eof. absurd (ground (arith, e, new_indent-end l eof))))
    | inr e ↦ elim (Bool-cases (ltb (new_indent l) (length l.indent_stack))) [
      | inl f ↦
          let (same, text) = close_blocks-weight (new_indent l) l.indent_stack l in
          rw (e, f) (omega (arith, same), text, (λ eof. omega (arith, same)))
      | inr f ↦ rw (e, f) (omega arith, refl, (λ eof. omega arith))
    ]
  ]

  -- Removing a token that is pending.
  take_pending-weight :
      (ps : List (Token F)) (t : Token F) (l : Lexer F) (h : is_empty ps ≡ false)
      → (suc (weight (take_pending ps t l).1) ≡ length ps + length l.indent_stack)
        × (ahead (take_pending ps t l).1 ≡ ahead l)
  unfolding take_pending
  take_pending-weight [] t l h = absurd (cc)
  take_pending-weight (p ∷ ps) t l h = (omega arith, refl)

  pub queue_token-weight :
      (t : Token F) (l : Lexer F)
      → (weight (queue_token t l).1 ≤ weight l)
        × (ahead (queue_token t l).1 ≡ ahead l)
        × (is_eof t.type ≡ true
            → (is_eof (queue_token t l).0.type ≡ true) ⊎ (weight (queue_token t l).1 < weight l))
  unfolding queue_token
  queue_token-weight t l = elim (Bool-cases (is_empty l.pending_tokens)) [
    | inl e ↦ rw e (omega arith, refl, (λ eof. inl eof))
    | inr e ↦ elim (Bool-cases (is_eof t.type)) [
      | inl f ↦
          let (same, text) = take_pending-weight l.pending_tokens t l e in
          rw (e, f) (omega (arith, same), text, (λ eof. inr (omega (arith, same))))
      | inr f ↦ elim (Bool-cases (leb 16 (length l.pending_tokens))) [
        | inl g ↦ rw (e, f, g) (omega arith, refl, (λ eof. absurd (cc)))
        | inr g ↦
            let queue = l.pending_tokens ++ t ∷ [] in
            let (same, text) = take_pending-weight queue t l (append-nonempty l.pending_tokens t) in
            rw (e, f, g)
              (
                omega (arith, same, length-append l.pending_tokens (t ∷ [])),
                text,
                (λ eof. absurd (cc)),
              )
      ]
    ]
  ]

  pub end_token-weight :
      (l : Lexer F) (r : Lexed F) (h : IsBehind r.1 (ahead l))
      → (weight (end_token l r).1 ≤ weight l)
        × (ahead (end_token l r).1 ≡ r.1)
        × (is_eof r.0.type ≡ true
            → (is_eof (end_token l r).0.type ≡ true) ⊎ (weight (end_token l r).1 < weight l))
  unfolding end_token catch_up
  end_token-weight l r h =
      let next = catch_up (report_if r.2 unclosed_character_literal (move_to r.1 l)) in
      let (bound, text, eof) =
        queue_token-weight (record (r.0) { length = next.pos - l.pos }) next in
      (bound, text ∙ ahead-move_to l r.1 h, eof)
