-- ===== src/Lexer/Kept.antt =====
-- A property of the position and its counters is kept by `lexer_next` when moving on keeps it.
use alkyl.Prelude.{
  ℕ, [], ◌∷◌, ◌++◌, ◌≡◌, refl, ap, ◌≤◌, arith, length-append, inl, inr, Bool, true, false, ◌&&◌,
  ◌||◌, List, Str, ok, bind, length, ltb, leb, ◌==◌, Bool-cases,
}
use alkyl.Lexer.Token.{
  Token, Floats, Message, Report, unclosed_character_literal, unclosed_block_comment, token_rbrace,
  token_lbrace, token_eof,
}
use alkyl.Lexer.Skip.{skip_whitespace_and_comments, in_code}
use alkyl.Lexer.State.{
  Lexer, ahead, is_empty, report_if, move_to, catch_up, skip_blanks, bare_token,
}
use alkyl.Lexer.Indent.{new_indent, open_block, close_blocks, change_indent, opened}
use alkyl.Lexer.Next.{
  Lexed, is_eof, is_indentation, take_pending, queue_token, end_token, lex_token, read_token,
  after_indent, next_token, lexer_next_from, lexer_next,
}
use alkyl.Lexer.Behind.{IsBehind, IsPast, IsBehind-all, behind, skip-IsBehind}
use alkyl.Lexer.Attempts.{Returns, bind-Returns}
use alkyl.Lexer.Past.Tokens.{lex_token-IsPast}

one_more :
    {A : Type 0} (xs : List A) (x : A) → leb 16 (length xs) ≡ false → length (xs ++ x ∷ []) ≤ 16
one_more xs x e = ground (arith, e, length-append xs (x ∷ []))

-- `others`: the property of a lexer holds when the pending tokens, the open blocks and the reports
-- change, where these stay within the bounds of their arrays if they were. `moves`: it holds
-- further on in the source.
module _ {F : Floats} (P : Lexer F → Type 0)
    (others : (l : Lexer F)
      → P l
      → (ps : List (Token F)) (stack : List ℕ) (reports : List Report)
      → (length l.pending_tokens ≤ 16 → length ps ≤ 16)
      → (length l.indent_stack ≤ 127 → length stack ≤ 127)
      → P (record l { pending_tokens = ps; indent_stack = stack; reports = reports }))
    (moves : (l : Lexer F)
      → P l
      → (rest : Str) (b : Bool) (m : Message) → IsBehind rest (ahead l)
      → P (catch_up (report_if b m (move_to rest l)))) where
  close_blocks-keeps :
      (indent : ℕ) (stack : List ℕ) (l : Lexer F)
      (h : length l.indent_stack ≤ 127 → length stack ≤ 127) (p : P l)
      → P (close_blocks indent stack l).1
  unfolding close_blocks
  close_blocks-keeps indent [] l h p =
      others l p l.pending_tokens [] l.reports (λ b. b) (λ b. omega arith)
  close_blocks-keeps indent (top ∷ stack) l h p = elim (Bool-cases (ltb indent top)) [
    | inl e ↦ elim (Bool-cases (leb 16 (length l.pending_tokens))) [
      | inl f ↦
          rw (e, f, close_blocks) (others l p l.pending_tokens (top ∷ stack) l.reports (λ b. b) h)
      | inr f ↦
          let queue = l.pending_tokens ++ bare_token token_rbrace l.line 1 ∷ [] in
          rw (e, f, close_blocks)
            (close_blocks-keeps indent stack (record l { pending_tokens = queue })
              (λ b. omega (arith, h b))
              (others l p queue l.indent_stack l.reports
                (λ b. one_more l.pending_tokens (bare_token token_rbrace l.line 1) f) (λ b. b)))
    ]
    | inr e ↦ rw (e, close_blocks) (others l p l.pending_tokens (top ∷ stack) l.reports (λ b. b) h)
  ]

  open_block-keeps : (indent : ℕ) (l : Lexer F) (p : P l) → P (opened l (open_block indent l)).1
  unfolding open_block
  open_block-keeps indent l p = elim (Bool-cases (leb 16 (length l.pending_tokens))) [
    | inl e ↦ rw e p
    | inr e ↦ elim (Bool-cases (leb 127 (length l.indent_stack))) [
      | inl f ↦ rw (e, f) p
      | inr f ↦
          rw (e, f)
            (others l p _ _ _ (λ b. one_more l.pending_tokens (bare_token token_lbrace l.line 1) e)
              (λ b. ground (arith, f)))
    ]
  ]

  pub change_indent-keeps : (l : Lexer F) (p : P l) → P (change_indent l).1
  unfolding change_indent
  change_indent-keeps l p = elim (Bool-cases (ltb (length l.indent_stack) (new_indent l))) [
    | inl e ↦ rw e (open_block-keeps (new_indent l) l p)
    | inr e ↦ elim (Bool-cases (ltb (new_indent l) (length l.indent_stack))) [
      | inl f ↦ rw (e, f) (close_blocks-keeps (new_indent l) l.indent_stack l (λ b. b) p)
      | inr f ↦ rw (e, f) p
    ]
  ]

  take_pending-keeps :
      (ps : List (Token F)) (t : Token F) (l : Lexer F) (p : P l)
      (h : length l.pending_tokens ≤ 16 → length ps ≤ 16)
      → P (take_pending ps t l).1
  unfolding take_pending
  take_pending-keeps [] t l p h = others l p [] l.indent_stack l.reports h (λ b. b)
  take_pending-keeps (u ∷ us) t l p h =
      others l p us l.indent_stack l.reports (λ b. omega (arith, h b)) (λ b. b)

  queue_token-keeps : (t : Token F) (l : Lexer F) (p : P l) → P (queue_token t l).1
  unfolding queue_token
  queue_token-keeps t l p = elim (Bool-cases (is_empty l.pending_tokens)) [
    | inl e ↦ rw e p
    | inr e ↦ elim (Bool-cases (is_eof t.type)) [
      | inl f ↦ rw (e, f) (take_pending-keeps l.pending_tokens t l p (λ b. b))
      | inr f ↦ elim (Bool-cases (leb 16 (length l.pending_tokens))) [
        | inl g ↦ rw (e, f, g) (others l p l.pending_tokens l.indent_stack _ (λ b. b) (λ b. b))
        | inr g ↦
            rw (e, f, g)
              (take_pending-keeps (l.pending_tokens ++ t ∷ []) t l p
                (λ b. one_more l.pending_tokens t g))
      ]
    ]
  ]

  end_token-keeps :
      (l : Lexer F) (p : P l) (r : Lexed F) (h : IsBehind r.1 (ahead l)) → P (end_token l r).1
  unfolding end_token
  end_token-keeps l p r h =
      queue_token-keeps _ (catch_up (report_if r.2 unclosed_character_literal (move_to r.1 l)))
        (moves l p r.1 r.2 unclosed_character_literal h)

  lexed-keeps :
      (l : Lexer F) (p : P l) (quotes : Bool) (t : Token F) (text : Str) (e : ahead l ≡ text)
      → Returns (λ r. P r.1) (bind (lex_token quotes t text) (λ r. ok (end_token l r)))
  unfolding lex_token
  lexed-keeps l p quotes t [] e =
      end_token-keeps l p (record t { type = token_eof }, [], false) (rw e (IsBehind-all []))
  lexed-keeps l p quotes t (c ∷ rest) e =
      bind-Returns (λ r. IsPast r.1 (c ∷ rest)) (λ r. P r.1) (lex_token quotes t (c ∷ rest))
        (λ r. ok (end_token l r)) (lex_token-IsPast quotes t c rest)
        (λ r past. end_token-keeps l p r (rw e (behind r.1 (c ∷ rest) past)))

  after_indent-keeps :
      (b : Bool) (m : Bool × Lexer F) (p : P m.1) → Returns (λ r. P r.1) (after_indent b m)
  unfolding after_indent read_token
  after_indent-keeps b (true, m) p = lexed-keeps m p _ _ (ahead m) refl
  after_indent-keeps b (false, m) p = others m p m.pending_tokens m.indent_stack _ (λ b. b) (λ b. b)

  pub skip_blanks-keeps : (l : Lexer F) (p : P l) → P (skip_blanks l)
  unfolding skip_blanks skip_whitespace_and_comments
  skip_blanks-keeps l p =
      moves l p _ _ unclosed_block_comment
        (skip-IsBehind l.settings.comment_style in_code (ahead l))

  next_token-keeps : (l : Lexer F) (p : P l) → Returns (λ r. P r.1) (next_token l)
  unfolding next_token
  next_token-keeps l p =
      let s = skip_blanks l in
      let q = skip_blanks-keeps l p in
      elim (Bool-cases (
        is_indentation s.settings.scope_style
        && (ltb l.line s.line || l.pos == 0 || is_empty (ahead s)))) [
          | inl e ↦ rw e (after_indent-keeps _ (change_indent s) (change_indent-keeps s q))
          | inr e ↦ rw e (after_indent-keeps _ (true, s) q)
        ]

  lexer_next_from-keeps :
      (ps : List (Token F)) (l : Lexer F) (e : l.pending_tokens ≡ ps) (p : P l)
      → Returns (λ r. P r.1) (lexer_next_from ps l)
  unfolding lexer_next_from
  lexer_next_from-keeps [] l e p = next_token-keeps l p
  lexer_next_from-keeps (u ∷ us) l e p =
      others l p us l.indent_stack l.reports (λ b. omega (arith, b, ap length e)) (λ b. b)

  pub lexer_next-keeps : (l : Lexer F) (p : P l) → Returns (λ r. P r.1) (lexer_next l)
  unfolding lexer_next
  lexer_next-keeps l p = lexer_next_from-keeps l.pending_tokens l refl p
