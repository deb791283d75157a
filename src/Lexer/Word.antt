-- ===== src/Lexer/Word.antt =====
-- src/lexer/lexer.c: `lex_word`.
use alkyl.Prelude.{
  [], ◌∷◌, true, false, Option, none, some, Str, Run, ok, fault, endless_loop, if◌then◌else◌,
}
use alkyl.Lexer.Token.{Token, Floats, token_identifier}
use alkyl.Lexer.Bytes.{is_ident_start, is_ident_part}
use alkyl.Lexer.Keywords.{KeywordDef, Slots, init_kw_hash, lookup_keyword}

-- The bytes of a word, and the text behind them.
unfoldable pub read_word : Str → Str × Str
read_word [] = ([], [])
read_word (c ∷ rest) = elim (is_ident_part c) [
  | true ↦ let more = read_word rest in (c ∷ more.0, more.1)
  | false ↦ ([], c ∷ rest)
]

module _ {F : Floats} where
  unfoldable pub word_token : Token F → Str → Option KeywordDef → Token F
  word_token t word none = record t { type = token_identifier; text = some word }
  word_token t word (some k) = record t { type = k.1; text = some k.0 }

  -- What the search for the word ends in.
  unfoldable pub found_word : Token F → Str × Str → Option (Option KeywordDef) → Run (Token F × Str)
  unfolding word_token
  found_word t w none = fault endless_loop
  found_word t w (some k) = ok (word_token t w.0 k, w.1)

  unfoldable pub word_in : Token F → Str × Str → Option Slots → Run (Token F × Str)
  unfolding found_word lookup_keyword
  word_in t w none = fault endless_loop
  word_in t w (some slots) = found_word t w (lookup_keyword slots w.0)

  unfoldable pub lex_word : Token F → Str → Option (Run (Token F × Str))
  unfolding read_word word_in init_kw_hash
  lex_word t [] = none
  lex_word t (c ∷ rest) =
      if is_ident_start c then some (word_in t (read_word (c ∷ rest)) init_kw_hash) else none
