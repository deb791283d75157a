-- ===== src/Lexer/Indent.antt =====
-- src/lexer/lexer.c: the indentation in `lexer_next`.
use alkyl.Prelude.{
  ℕ, suc, ◌-◌, ◌/◌, List, [], ◌∷◌, ◌++◌, Bool, true, false, ◌&&◌, Option, none, some, length, ltb,
  leb, if◌then◌else◌,
}
use alkyl.Lexer.Token.{Floats, indentation_more_than, token_lbrace, token_rbrace}
use alkyl.Lexer.State.{Lexer, ahead, is_empty, bare_token, report_if}

module _ {F : Floats} where
  -- The indentation of the line, in units.
  unfoldable pub new_indent : Lexer F → ℕ
  new_indent l =
      if is_empty (ahead l)
      then 0
      else if ltb 0 l.settings.spaces_per_indent
      then (l.col - 1) / l.settings.spaces_per_indent
      else 0

  -- The branch on a deeper line: `none` is the return of an end of file after a report.
  unfoldable pub open_block : ℕ → Lexer F → Option (Lexer F)
  open_block indent l =
      if leb 16 (length l.pending_tokens)
      then none
      else if leb 127 (length l.indent_stack)
      then none
      else some (
          report_if
            (ltb 0 l.settings.warning_indent_deep
              && leb l.settings.warning_indent_deep (suc (length l.indent_stack)))
            (indentation_more_than (l.settings.warning_indent_deep - 1))
            (record l {
              pending_tokens = l.pending_tokens ++ bare_token token_lbrace l.line 1 ∷ [];
              indent_stack = indent ∷ l.indent_stack;
            }))

  -- The loop on a shallower line, over the indentations that are open: whether it ends without
  -- the return of an end of file, and the lexer.
  unfoldable pub close_blocks : ℕ → List ℕ → Lexer F → Bool × Lexer F
  close_blocks indent [] l = (true, record l { indent_stack = [] })
  close_blocks indent (top ∷ stack) l = elim (ltb indent top) [
    | false ↦ (true, record l { indent_stack = top ∷ stack })
    | true ↦ elim (leb 16 (length l.pending_tokens)) [
      | true ↦ (false, record l { indent_stack = top ∷ stack })
      | false ↦
          close_blocks indent stack (record l {
            pending_tokens = l.pending_tokens ++ bare_token token_rbrace l.line 1 ∷ [];
          })
    ]
  ]

  abbrev pub opened : Lexer F → Option (Lexer F) → Bool × Lexer F
  opened l none = (false, l)
  opened l (some next) = (true, next)

  -- Whether the function goes on to a token, and the lexer.
  unfoldable pub change_indent : Lexer F → Bool × Lexer F
  unfolding new_indent open_block close_blocks
  change_indent l =
      if ltb (length l.indent_stack) (new_indent l)
      then opened l (open_block (new_indent l) l)
      else if ltb (new_indent l) (length l.indent_stack)
      then close_blocks (new_indent l) l.indent_stack l
      else (true, l)
