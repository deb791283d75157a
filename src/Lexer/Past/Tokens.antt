-- ===== src/Lexer/Past/Tokens.antt =====
-- `lex_token` reads at least one byte, or is at the end; and where it reads out of bounds.
use alkyl.Prelude.{
  ℕ, [], ◌∷◌, ◌≡◌, ap, ◌∙◌, inl, inr, Bool, true, ◌&&◌, Option, none, some, Str, Run, ok, fault,
  ◌==◌, Bool-cases, arith,
}
use alkyl.Lexer.Token.{Token, Floats}
use alkyl.Lexer.Bytes.{peeks, is_ident_start, is_ident_part}
use alkyl.Lexer.Text.{
  consume_string_content, close_char, escaped_char, quoted_char, lex_char, string_token, lex_string,
  escaped,
}
use alkyl.Lexer.Keywords.{keywords}
use alkyl.Lexer.Keywords.Lookup.{find_word, lookup_keyword-find_word}
use alkyl.Lexer.Word.{read_word, word_in, found_word, word_token, lex_word}
use alkyl.Lexer.Next.{Lexed, quiet, lex_other, lex_token}
use alkyl.Lexer.Behind.{
  IsBehind, IsPast, IsBehind-one, IsBehind-more, IsBehind-all, IsBehind-both, advance-IsBehind,
  read_word-IsBehind, read_string-IsBehind,
}
use alkyl.Lexer.Attempts.{Gives, Returns, lex_token-holds}
use alkyl.Lexer.Past.{lex_symbol-IsPast, lex_number-IsPast}

word-IsPast :
    (c : ℕ) (rest : Str) (h : is_ident_start c ≡ true) → IsPast (read_word (c ∷ rest)).1 (c ∷ rest)
unfolding read_word
word-IsPast c rest h =
    let part : is_ident_part c ≡ true = ground (arith, h) in
    rw (part, read_word) (IsBehind-one c _ rest (read_word-IsBehind rest))

module _ {F : Floats} where
  close_char-IsBehind :
      (t : Token F) (val : ℕ) (rest : Str)
      → Returns (λ r. IsBehind r.1 rest) (close_char t val rest)
  unfolding close_char
  close_char-IsBehind t val rest = elim (Bool-cases (peeks b'\'' rest)) [
    | inl e ↦ rw e (advance-IsBehind rest)
    | inr e ↦ rw e (IsBehind-all rest)
  ]

  more-Returns :
      (c : ℕ) (rest : Str) (r : Run (Lexed F))
      → Returns (λ r. IsBehind r.1 rest) r
      → Returns (λ r. IsBehind r.1 (c ∷ rest)) r
  more-Returns c rest (ok r) h = IsBehind-more c r.1 rest h
  more-Returns c rest (fault e) h = tt

  one-Returns :
      (c : ℕ) (rest : Str) (r : Run (Lexed F))
      → Returns (λ r. IsBehind r.1 rest) r
      → Returns (λ r. IsPast r.1 (c ∷ rest)) r
  one-Returns c rest (ok r) h = IsBehind-one c r.1 rest h
  one-Returns c rest (fault e) h = tt

  quoted_char-IsBehind :
      (t : Token F) (text : Str) → Returns (λ r. IsBehind r.1 text) (quoted_char t text)
  unfolding quoted_char escaped_char
  quoted_char-IsBehind t [] = tt
  quoted_char-IsBehind t (c ∷ []) = elim (Bool-cases (c == b'\\')) [
    | inl e ↦ rw e tt
    | inr e ↦ rw e (more-Returns c [] (close_char t c []) (close_char-IsBehind t c []))
  ]
  quoted_char-IsBehind t (c ∷ d ∷ rest) = elim (Bool-cases (c == b'\\')) [
    | inl e ↦ rw e (
        more-Returns c (d ∷ rest) (close_char t (escaped d) rest) (
          more-Returns d rest (close_char t (escaped d) rest)
            (close_char-IsBehind t (escaped d) rest)))
    | inr e ↦
        rw e (
          more-Returns c (d ∷ rest) (close_char t c (d ∷ rest))
            (close_char-IsBehind t c (d ∷ rest)))
  ]

  lex_char-IsPast :
      (t : Token F) (text : Str) → Gives (Returns (λ r. IsPast r.1 text)) (lex_char t text)
  unfolding lex_char
  lex_char-IsPast t [] = tt
  lex_char-IsPast t (c ∷ rest) = elim (Bool-cases (c == b'\'')) [
    | inl e ↦ rw e (one-Returns c rest (quoted_char t rest) (quoted_char-IsBehind t rest))
    | inr e ↦ rw e tt
  ]

  lex_string-IsPast :
      (quotes : Bool) (t : Token F) (text : Str)
      → Gives (λ r. IsPast r.1 text) (lex_string quotes t text)
  unfolding lex_string string_token consume_string_content
  lex_string-IsPast quotes t [] = tt
  lex_string-IsPast quotes t (c ∷ rest) = elim (Bool-cases (c == b'c' && peeks b'"' rest)) [
    | inl e ↦ rw e (
        IsBehind-one c _ rest
          (IsBehind-both _ _ rest (read_string-IsBehind _) (advance-IsBehind rest)))
    | inr e ↦ elim (Bool-cases (c == b'b' && peeks b'"' rest)) [
      | inl f ↦
          rw (e, f)
            (IsBehind-one c _ rest
              (IsBehind-both _ _ rest (read_string-IsBehind _) (advance-IsBehind rest)))
      | inr f ↦ elim (Bool-cases (c == b'"')) [
        | inl g ↦ rw (e, f, g) (IsBehind-one c _ rest (read_string-IsBehind rest))
        | inr g ↦ rw (e, f, g) tt
      ]
    ]
  ]

  -- `lex_word` with a search of the list in place of the hash table.
  pub lex_word-find_word :
      (t : Token F) (c : ℕ) (rest : Str) (h : is_ident_start c ≡ true)
      → lex_word t (c ∷ rest)
        ≡ some (let w = read_word (c ∷ rest) in ok (word_token t w.0 (find_word keywords w.0), w.1))
  unfolding lex_word word_in found_word
  lex_word-find_word t c rest h =
      let w = read_word (c ∷ rest) in
      let (built, found) = lookup_keyword-find_word w.0 in
      rw h (ap some (ap (word_in t w) built ∙ ap (found_word t w) found))

  lex_word-IsPast :
      (t : Token F) (text : Str) → Gives (Returns (λ r. IsPast r.1 text)) (lex_word t text)
  unfolding lex_word read_word
  lex_word-IsPast t [] = tt
  lex_word-IsPast t (c ∷ rest) = elim (Bool-cases (is_ident_start c)) [
    | inl e ↦ rw (lex_word-find_word t c rest e) (word-IsPast c rest e)
    | inr e ↦ rw e tt
  ]

  pub lex_token-IsPast :
      (quotes : Bool) (t : Token F) (c : ℕ) (rest : Str)
      → Returns (λ r. IsPast r.1 (c ∷ rest)) (lex_token quotes t (c ∷ rest))
  unfolding lex_other
  lex_token-IsPast quotes t c rest =
      lex_token-holds quotes t c rest (Returns (λ r. IsPast r.1 (c ∷ rest))) (record {
        by_symbol = lex_symbol-IsPast (c ∷ rest);
        by_number = lex_number-IsPast t (c ∷ rest);
        by_char = lex_char-IsPast t (c ∷ rest);
        by_string = lex_string-IsPast quotes t (c ∷ rest);
        by_word = word_Past (lex_word t (c ∷ rest)) (lex_word-IsPast t (c ∷ rest));
        by_other = other_Past;
      })
    where
      word_Past :
          (o : Option (Run (Token F × Str)))
          → Gives (Returns (λ r. IsPast r.1 (c ∷ rest))) o
          → Gives (λ r. Returns (λ r. IsPast r.1 (c ∷ rest)) (quiet r)) o
      word_Past none h = tt
      word_Past (some (ok r)) h = h
      word_Past (some (fault e)) h = tt

      other_Past : IsPast rest (c ∷ rest)
      other_Past = IsBehind-one c rest rest (IsBehind-all rest)
