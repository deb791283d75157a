-- ===== src/Lexer/Next.antt =====
-- src/lexer/lexer.c: `lexer_next`.
use alkyl.Prelude.{
  ◌-◌, List, [], ◌∷◌, ◌++◌, Bool, true, false, ◌&&◌, ◌||◌, Option, none, some, Str, Run, ok, fault,
  bind, length, ltb, leb, ◌==◌, if◌then◌else◌,
}
use alkyl.Lexer.Token.{
  Token, Floats, TokenType, ScopeStyle, scope_brackets, scope_indentation,
  unclosed_character_literal, indentation_too_deep, too_many_pending_tokens, token_eof,
  token_unknown,
}
use alkyl.Lexer.Bytes.{advance}
use alkyl.Lexer.Symbol.{lex_symbol}
use alkyl.Lexer.Number.{lex_number}
use alkyl.Lexer.Text.{lex_char, lex_string}
use alkyl.Lexer.Word.{lex_word}
use alkyl.Lexer.State.{
  Lexer, ahead, is_empty, report, report_if, move_to, catch_up, bare_token, skip_blanks,
}
use alkyl.Lexer.Indent.{change_indent}

abbrev pub is_indentation : ScopeStyle → Bool
is_indentation scope_brackets = false
is_indentation scope_indentation = true

abbrev pub is_eof : TokenType → Bool
is_eof token_eof = true
is_eof _ = false

-- A token, the text that is left, and whether an unclosed character literal is reported.
abbrev pub Lexed : Floats → Type 0
Lexed F = Token F × Str × Bool

module _ {F : Floats} where
  abbrev pub quiet : Run (Token F × Str) → Run (Lexed F)
  quiet (ok r) = ok (r.0, r.1, false)
  quiet (fault e) = fault e

  -- The attempts in their order; each is the next one's alternative.
  unfoldable pub lex_other : Token F → Str → Run (Lexed F)
  lex_other t text = ok (record t { type = token_unknown }, advance text, false)

  unfoldable pub or_word : Token F → Str → Option (Run (Token F × Str)) → Run (Lexed F)
  unfolding lex_other
  or_word t text none = lex_other t text
  or_word t text (some r) = quiet r

  unfoldable pub or_string : Bool → Token F → Str → Option (Token F × Str) → Run (Lexed F)
  unfolding or_word lex_word
  or_string quotes t text none = or_word t text (lex_word t text)
  or_string quotes t text (some r) = ok (r.0, r.1, false)

  unfoldable pub or_char : Bool → Token F → Str → Option (Run (Lexed F)) → Run (Lexed F)
  unfolding or_string lex_string
  or_char quotes t text none = or_string quotes t text (lex_string quotes t text)
  or_char quotes t text (some r) = r

  unfoldable pub or_number : Bool → Token F → Str → Option (Token F × Str) → Run (Lexed F)
  unfolding or_char lex_char
  or_number quotes t text none = or_char quotes t text (lex_char t text)
  or_number quotes t text (some r) = ok (r.0, r.1, false)

  unfoldable pub or_symbol : Bool → Token F → Str → Option (TokenType × Str) → Run (Lexed F)
  unfolding or_number lex_number
  or_symbol quotes t text none = or_number quotes t text (lex_number t text)
  or_symbol quotes t text (some r) = ok (record t { type = r.0 }, r.1, false)

  unfoldable pub lex_token : Bool → Token F → Str → Run (Lexed F)
  unfolding or_symbol lex_symbol
  lex_token quotes t [] = ok (record t { type = token_eof }, [], false)
  lex_token quotes t (c ∷ rest) = or_symbol quotes t (c ∷ rest) (lex_symbol (c ∷ rest))

  -- The removal of the first of the pending tokens, or the given token when there is none.
  unfoldable pub take_pending : List (Token F) → Token F → Lexer F → Token F × Lexer F
  take_pending [] t l = (t, record l { pending_tokens = [] })
  take_pending (u ∷ us) t l = (u, record l { pending_tokens = us })

  -- The end of the function, when the token has been read.
  unfoldable pub queue_token : Token F → Lexer F → Token F × Lexer F
  unfolding take_pending
  queue_token t l =
      if is_empty l.pending_tokens
      then (t, l)
      else if is_eof t.type
      then take_pending l.pending_tokens t l
      else if leb 16 (length l.pending_tokens)
      then (t, report too_many_pending_tokens l)
      else take_pending (l.pending_tokens ++ t ∷ []) t l

  -- The counting behind the token, and its length, which is from `pos`.
  unfoldable pub end_token : Lexer F → Lexed F → Token F × Lexer F
  unfolding catch_up queue_token
  end_token l r =
      let next = catch_up (report_if r.2 unclosed_character_literal (move_to r.1 l)) in
      queue_token (record (r.0) { length = next.pos - l.pos }) next

  -- From the token on, at its first byte.
  unfoldable pub read_token : Bool → Lexer F → Run (Token F × Lexer F)
  unfolding lex_token end_token
  read_token has_space_before l =
      let blank = record (bare_token token_unknown l.line l.col) {
        has_space_before = has_space_before;
      } in
      bind (lex_token l.settings.double_quote_as_string blank (ahead l)) (λ r. ok (end_token l r))

  -- Behind the indentation: the flag says whether there was no error in it.
  unfoldable pub after_indent : Bool → Bool × Lexer F → Run (Token F × Lexer F)
  unfolding read_token
  after_indent has_space_before (true, l) = read_token has_space_before l
  after_indent has_space_before (false, l) =
      ok (bare_token token_eof l.line l.col, report indentation_too_deep l)

  -- The function where no token is pending.
  unfoldable pub next_token : Lexer F → Run (Token F × Lexer F)
  unfolding skip_blanks change_indent after_indent
  next_token l =
      let is_first_token = l.pos == 0 in
      let skipped = skip_blanks l in
      let has_space_before = ltb l.pos skipped.pos || is_first_token in
      let is_new_line = ltb l.line skipped.line || is_first_token || is_empty (ahead skipped) in
      after_indent has_space_before (
        if is_indentation skipped.settings.scope_style && is_new_line
        then change_indent skipped
        else (true, skipped))

  unfoldable pub lexer_next_from : List (Token F) → Lexer F → Run (Token F × Lexer F)
  unfolding next_token
  lexer_next_from [] l = next_token l
  lexer_next_from (t ∷ ts) l = ok (t, record l { pending_tokens = ts })

  unfoldable pub lexer_next : Lexer F → Run (Token F × Lexer F)
  unfolding lexer_next_from
  lexer_next l = lexer_next_from l.pending_tokens l
