-- ===== src/Lexer/Progress.antt =====
-- Each call of `lexer_next` brings the end of the source nearer.
use alkyl.Prelude.{
  ◌+◌, ◌≤◌, ◌<◌, [], ◌∷◌, ◌≡◌, refl, ap, ◌⊎◌, inl, inr, Bool, true, false, ◌&&◌, ◌||◌, List, Str,
  ok, bind, length, ltb, ◌==◌, Bool-cases, arith,
}
use alkyl.Lexer.Token.{Token, Floats, token_eof}
use alkyl.Lexer.Skip.{in_code}
use alkyl.Lexer.State.{Lexer, ahead, is_empty, catch_up, skip_blanks}
use alkyl.Lexer.Indent.{change_indent}
use alkyl.Lexer.Next.{
  Lexed, is_eof, is_indentation, end_token, lex_token, read_token, after_indent, next_token,
  lexer_next_from, lexer_next,
}
use alkyl.Lexer.Behind.{IsPast, IsBehind-all, behind, skip-IsBehind, length-IsBehind, length-IsPast}
use alkyl.Lexer.Attempts.{Returns, Returns-imp, bind-Returns}
use alkyl.Lexer.Past.Tokens.{lex_token-IsPast}
use alkyl.Lexer.Weight.{weight, measure, ahead-skip_blanks, change_indent-weight, end_token-weight}

module _ {F : Floats} where
  -- From the first byte of a token on: at the end of the source, and before it.
  Nearer : Lexer F → Token F × Lexer F → Type 0
  Nearer l r =
      ((ahead l ≡ []) × ((is_eof r.0.type ≡ true) ⊎ (measure r.1 < measure l)))
      ⊎ (measure r.1 + 3 ≤ measure l)

  lexed-Nearer :
      (l : Lexer F) (quotes : Bool) (t : Token F) (text : Str) (e : ahead l ≡ text)
      → Returns (Nearer l) (bind (lex_token quotes t text) (λ r. ok (end_token l r)))
  unfolding lex_token Nearer
  lexed-Nearer l quotes t [] e =
      let r : Lexed F = (record t { type = token_eof }, [], false) in
      let (bound, text, eof) = end_token-weight l r (rw e (IsBehind-all [])) in
      inl (
        e,
        elim (eof refl) [
          | inl done ↦ inl done
          | inr less ↦ inr (omega (arith, less, ap length text, ap length e))
        ],
      )
  lexed-Nearer l quotes t (c ∷ rest) e =
      bind-Returns (λ r. IsPast r.1 (c ∷ rest)) (Nearer l) (lex_token quotes t (c ∷ rest))
        (λ r. ok (end_token l r)) (lex_token-IsPast quotes t c rest)
        (λ r past.
          let (bound, text, eof) = end_token-weight l r (rw e (behind r.1 (c ∷ rest) past)) in
          inr
            (omega (arith, bound, ap length text, ap length e, length-IsPast r.1 (c ∷ rest) past)))

  read_token-Nearer : (b : Bool) (l : Lexer F) → Returns (Nearer l) (read_token b l)
  unfolding read_token
  read_token-Nearer b l = lexed-Nearer l _ _ (ahead l) refl

  -- A call returns the end of the source, or leaves less to do.
  abbrev pub Progresses : Lexer F → Token F × Lexer F → Type 0
  Progresses l r = (is_eof r.0.type ≡ true) ⊎ (measure r.1 < measure l)

  after_indent-Progresses :
      (l : Lexer F) (b : Bool) (p : Bool × Lexer F) (bound : weight p.1 ≤ weight l + 2)
      (shorter : length (ahead p.1) ≤ length (ahead l))
      (at_end : ahead p.1 ≡ [] → weight p.1 ≤ weight l)
      → Returns (Progresses l) (after_indent b p)
  unfolding after_indent Nearer
  after_indent-Progresses l b (false, m) bound shorter at_end = inl refl
  after_indent-Progresses l b (true, m) bound shorter at_end =
      Returns-imp (Nearer m) (Progresses l) (read_token b m) (read_token-Nearer b m) (λ r near.
        elim near [
          | inl (eof, inl done) ↦ inl done
          | inl (eof, inr less) ↦ inr (omega (arith, less, at_end eof, shorter))
          | inr less ↦ inr (omega (arith, less, bound, shorter))
        ])

  weight-skip_blanks : (l : Lexer F) → weight (skip_blanks l) ≡ weight l
  unfolding skip_blanks catch_up
  weight-skip_blanks l = refl

  skip_blanks-weight :
      (l : Lexer F)
      → (weight (skip_blanks l) ≡ weight l) × (length (ahead (skip_blanks l)) ≤ length (ahead l))
  skip_blanks-weight l = (
    weight-skip_blanks l,
    rw (ahead-skip_blanks l)
        (length-IsBehind _ _ (skip-IsBehind l.settings.comment_style in_code (ahead l))),
  )

  next_token-Progresses : (l : Lexer F) → Returns (Progresses l) (next_token l)
  unfolding next_token
  next_token-Progresses l =
      let s = skip_blanks l in
      let (same, shorter) = skip_blanks-weight l in
      let (bound, text, at_end) = change_indent-weight s in
      elim (Bool-cases (
        is_indentation s.settings.scope_style
        && (ltb l.line s.line || l.pos == 0 || is_empty (ahead s)))) [
          | inl e ↦ rw e (
              after_indent-Progresses l _ (change_indent s) (omega (arith, bound, same))
                (omega (arith, ap length text, shorter))
                (λ eof. omega (arith, at_end (rw (← text) eof), same)))
          | inr e ↦ rw e (
              after_indent-Progresses l _ (true, s) (omega (arith, same)) shorter
                (λ eof. omega (arith, same)))
        ]

  lexer_next_from-Progresses :
      (ps : List (Token F)) (l : Lexer F) (e : l.pending_tokens ≡ ps)
      → Returns (Progresses l) (lexer_next_from ps l)
  unfolding lexer_next_from
  lexer_next_from-Progresses [] l e = next_token-Progresses l
  lexer_next_from-Progresses (p ∷ ps) l e = inr (omega (arith, ap length e))

  pub lexer_next-Progresses : (l : Lexer F) → Returns (Progresses l) (lexer_next l)
  unfolding lexer_next
  lexer_next-Progresses l = lexer_next_from-Progresses l.pending_tokens l refl
