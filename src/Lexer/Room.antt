-- ===== src/Lexer/Room.antt =====
-- src/lexer/lexer.c: the arrays of the pending tokens and of the open blocks are large enough. A call
-- of `lexer_next` takes at most one token from the queue, after all that it appends: where 15 are left
-- behind it there were at most 16 at any time of the call, and none is taken where the queue is full.
use alkyl.Prelude.{
  ◌≤◌, [], ◌∷◌, ◌++◌, ◌≡◌, refl, ap, ◌⊎◌, inl, inr, Bool, true, false, ◌&&◌, ◌||◌, List, Option,
  Str, Run, ok, fault, length, length-append, ltb, leb, ◌==◌, Bool-cases, arith,
}
use alkyl.Lexer.Token.{
  Token, Floats, Message, Report, LexerSettings, too_many_pending_tokens, indentation_too_deep,
}
use alkyl.Lexer.State.{Lexer, ahead, is_empty, catch_up, skip_blanks, lexer_init}
use alkyl.Lexer.Indent.{change_indent}
use alkyl.Lexer.Next.{
  is_eof, is_indentation, take_pending, queue_token, end_token, lex_token, read_token, after_indent,
  next_token, lexer_next_from, lexer_next,
}
use alkyl.Lexer.Attempts.{Returns, bind-Returns}
use alkyl.Lexer.Kept.{change_indent-keeps, skip_blanks-keeps}
use alkyl.Lexer.Places.{IsLexing, queued, moved, Reaches, reaches_next, Reaches-IsLexing}

any-Returns : {A : Type 0} (r : Run A) → Returns (λ _. Unit) r
any-Returns (ok a) = tt
any-Returns (fault e) = tt

module _ {F : Floats} where
  -- The last report is the one for an array that is full, at the place of the lexer.
  abbrev pub ReportsFull : Lexer F → Type 0
  ReportsFull l =
      (earlier : List Report) × (m : Message) × (l.reports
        ≡ earlier ++ record { message = m; line = l.line; col = l.col } ∷ [])
      × ((m ≡ too_many_pending_tokens) ⊎ (m ≡ indentation_too_deep))

  -- There is room for another token, or the full array is reported.
  abbrev pub HasRoom : Lexer F → Type 0
  HasRoom l = (length l.pending_tokens ≤ 15) ⊎ ReportsFull l

  take_pending-HasRoom :
      (ps : List (Token F)) (t : Token F) (l : Lexer F)
      → length ps ≤ 16
      → HasRoom (take_pending ps t l).1
  unfolding take_pending
  take_pending-HasRoom [] t l h = inl (omega arith)
  take_pending-HasRoom (u ∷ us) t l h = inl (omega (arith, h))

  queue_token-HasRoom :
      (t : Token F) (l : Lexer F) → length l.pending_tokens ≤ 16 → HasRoom (queue_token t l).1
  unfolding queue_token
  queue_token-HasRoom t l h = elim (Bool-cases (is_empty l.pending_tokens)) [
    | inl e ↦ rw e (inl (none_pending l.pending_tokens e))
    | inr e ↦ elim (Bool-cases (is_eof t.type)) [
      | inl f ↦ rw (e, f) (take_pending-HasRoom l.pending_tokens t l h)
      | inr f ↦ elim (Bool-cases (leb 16 (length l.pending_tokens))) [
        | inl g ↦ rw (e, f, g) (inr (l.reports, too_many_pending_tokens, refl, inl refl))
        | inr g ↦
            rw (e, f, g)
              (take_pending-HasRoom (l.pending_tokens ++ t ∷ []) t l
                (ground (arith, g, length-append l.pending_tokens (t ∷ []))))
      ]
    ]
  ]
    where
      none_pending : (ps : List (Token F)) → is_empty ps ≡ true → length ps ≤ 15
      none_pending [] e = omega arith
      none_pending (p ∷ ps) e = cc

  read_token-HasRoom :
      (has_space_before : Bool) (l : Lexer F)
      → length l.pending_tokens ≤ 16
      → Returns (λ r. HasRoom r.1) (read_token has_space_before l)
  unfolding read_token end_token catch_up
  read_token-HasRoom has_space_before l h =
      bind-Returns (λ _. Unit) (λ r. HasRoom r.1) (lex_token _ _ (ahead l)) _ (any-Returns _)
        (λ r _. queue_token-HasRoom _ _ h)

  after_indent-HasRoom :
      (has_space_before : Bool) (m : Bool × Lexer F)
      → length m.1.pending_tokens ≤ 16
      → Returns (λ r. HasRoom r.1) (after_indent has_space_before m)
  unfolding after_indent
  after_indent-HasRoom has_space_before (true, l) h = read_token-HasRoom has_space_before l h
  after_indent-HasRoom has_space_before (false, l) h =
      inr (l.reports, indentation_too_deep, refl, inr refl)

  next_token-HasRoom :
      (src : Str) (l : Lexer F) → IsLexing src l → Returns (λ r. HasRoom r.1) (next_token l)
  unfolding next_token
  next_token-HasRoom src l h =
      let s = skip_blanks l in
      let skipped : IsLexing src s =
        skip_blanks-keeps (IsLexing src) (queued src) (moved src) l h in
      elim (Bool-cases (
        is_indentation s.settings.scope_style
        && (ltb l.line s.line || l.pos == 0 || is_empty (ahead s)))) [
          | inl e ↦
              let changed = change_indent-keeps (IsLexing src) (queued src) (moved src) s skipped in
              rw e (after_indent-HasRoom _ (change_indent s) changed.queue)
          | inr e ↦ rw e (after_indent-HasRoom _ (true, s) skipped.queue)
        ]

  lexer_next_from-HasRoom :
      (src : Str) (ps : List (Token F)) (l : Lexer F)
      → l.pending_tokens ≡ ps
      → IsLexing src l
      → Returns (λ r. HasRoom r.1) (lexer_next_from ps l)
  unfolding lexer_next_from
  lexer_next_from-HasRoom src [] l e h = next_token-HasRoom src l h
  lexer_next_from-HasRoom src (t ∷ ts) l e h = inl (omega (arith, h.queue, ap length e))

  lexer_next-HasRoom :
      (src : Str) (l : Lexer F) → IsLexing src l → Returns (λ r. HasRoom r.1) (lexer_next l)
  unfolding lexer_next
  lexer_next-HasRoom src l h = lexer_next_from-HasRoom src l.pending_tokens l refl h

  -- In every call of `lexer_next` after any others that return, at most 16 tokens are pending behind it
  -- and at most 127 blocks are open, which is what the arrays hold, and at most 15 tokens are pending
  -- unless the last report says, at the place of the lexer, that tokens or blocks are too many.
  pub Reaches-bounds :
      (src : Str) (settings : Option LexerSettings) (l n : Lexer F) (t : Token F)
      (r : Reaches (lexer_init src settings) l) (e : lexer_next l ≡ ok (t, n))
      → (length n.pending_tokens ≤ 16)
        × (length n.indent_stack ≤ 127)
        × ((length n.pending_tokens ≤ 15) ⊎ ReportsFull n)
  Reaches-bounds src settings l n t r e =
      let before = Reaches-IsLexing src settings l r in
      let behind = Reaches-IsLexing src settings n (reaches_next r e) in
      let room = lexer_next-HasRoom src l before in (behind.queue, behind.blocks, rw e at room)
