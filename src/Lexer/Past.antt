-- ===== src/Lexer/Past.antt =====
-- Every token but the end of the source is of at least one byte.
pub mod Tokens
pub mod Faults
use alkyl.Prelude.{
  ℕ, suc, ◌+◌, ◌-◌, ◌*◌, ◌%◌, ◌^◌, List, [], ◌∷◌, ◌++◌, map, ◌≡◌, refl, ap, ◌⊎◌, inl, inr, Bool,
  true, false, not, ◌&&◌, Option, none, some, Str, Run, ok, fault, drop, length, Any, ◌==◌,
  if◌then◌else◌, Bool-cases, Option-cases, arith, append_assoc, ◌∙◌,
}
use alkyl.Lexer.Token.{Token, Floats, TokenType}
use alkyl.Lexer.Bytes.{advance, is_digit, peeks, peeks_letter, is_ident_start, is_ident_part}
use alkyl.Lexer.Symbol.{lex_symbol}
use alkyl.Lexer.Symbol.Longest.{Finds, IsLongest, Spelling}
use alkyl.Lexer.Symbol.Table.{symbols, lex_symbol-Finds}
use alkyl.Lexer.Number.{
  read_digits, read_suffix, prefix_mode, PrefixMode, hex_int, bin_int, hex_single, bin_single,
  hex_double, bin_double, lex_prefixed, prefixed_token, prefixed_digits, prefixed_int, point_suffix,
  lex_point, lex_integer, lex_decimal, lex_number, decimal_digit, hex_digit, bin_digit, no_suffix,
}
use alkyl.Lexer.Text.{
  read_string, consume_string_content, close_char, escaped_char, quoted_char, lex_char,
  string_token, lex_string,
}
use alkyl.Lexer.Word.{read_word, word_in, found_word, lex_word}
use alkyl.Lexer.Next.{
  Lexed, lex_other, or_word, or_string, or_char, or_number, or_symbol, lex_token,
}
use alkyl.Lexer.Behind.{
  IsBehind, IsPast, IsBehind-one, behind, IsBehind-more, IsBehind-all, IsBehind-both,
  advance-IsBehind, read_digits-IsBehind, read_word-IsBehind, read_string-IsBehind,
  read_suffix-IsBehind,
}
use alkyl.Lexer.Attempts.{Gives, Returns}

begins_empty : Spelling → Bool
begins_empty ([], t) = true
begins_empty (c ∷ w, t) = false

symbols-nonempty : map begins_empty symbols ≡ map (λ e. false) symbols
unfolding begins_empty
symbols-nonempty = refl

agrees :
    (f g : Spelling → Bool) (table : List Spelling) (x : Spelling)
    → map f table ≡ map g table
    → Any (λ e. e ≡ x) table
    → f x ≡ g x
agrees f g [] x h a = absurd a
agrees f g (e ∷ table) x h (inl q) = rw (← q) (cc)
agrees f g (e ∷ table) x h (inr a) = agrees f g table x (cc) a

longest-IsPast : (text : Str) (r : TokenType × Str) (l : IsLongest symbols text r) → IsPast r.1 text
unfolding begins_empty
longest-IsPast text r l = go l.spelling l.spelt l.joined
  where
    go : (w : Str) → Any (λ e. e ≡ (w, r.0)) symbols → w ++ r.1 ≡ text → IsPast r.1 text
    go [] a e =
        absurd
          (let bad = agrees begins_empty (λ e. false) symbols ([], r.0) symbols-nonempty a in cc)
    go (c ∷ w) a e = (c, w, e)

pub lex_symbol-IsPast : (text : Str) → Gives (λ r. IsPast r.1 text) (lex_symbol text)
lex_symbol-IsPast text = go (lex_symbol text) (lex_symbol-Finds text)
  where
    go : (o : Option (TokenType × Str)) → Finds symbols text o → Gives (λ r. IsPast r.1 text) o
    go none f = tt
    go (some r) l = longest-IsPast text r l

prefixed_digits-IsBehind :
    (mode : PrefixMode) (text : Str) → IsBehind (prefixed_digits mode text).1 text
unfolding prefixed_digits
prefixed_digits-IsBehind hex_int text = read_digits-IsBehind hex_digit 16 0 text
prefixed_digits-IsBehind hex_single text = read_digits-IsBehind hex_digit 16 0 text
prefixed_digits-IsBehind hex_double text = read_digits-IsBehind hex_digit 16 0 text
prefixed_digits-IsBehind bin_int text = read_digits-IsBehind bin_digit 2 0 text
prefixed_digits-IsBehind bin_single text = read_digits-IsBehind bin_digit 2 0 text
prefixed_digits-IsBehind bin_double text = read_digits-IsBehind bin_digit 2 0 text

IsPast-both : (a b c : Str) → IsBehind a b → IsPast b c → IsPast a c
IsPast-both a b c (v, e) (d, w, f) =
    (d, w ++ v, ap (λ s. d ∷ s) (append_assoc w v a) ∙ ap (λ s. d ∷ w ++ s) e ∙ f)

first_digit-IsPast :
    (c : ℕ) (rest : Str) (h : is_digit c ≡ true)
    → IsPast (read_digits decimal_digit 10 0 (c ∷ rest)).1 (c ∷ rest)
unfolding read_digits decimal_digit
first_digit-IsPast c rest h =
    rw (h, read_digits)
      (IsBehind-one c _ rest
        (read_digits-IsBehind decimal_digit 10 ((0 * 10 + (c - b'0')) % 2 ^ 64) rest))

module _ {F : Floats} where
  -- What is left of a text behind a number.
  prefixed_token-IsBehind :
      (mode : PrefixMode) (t : Token F) (val : ℕ) (rest : Str)
      → IsBehind (prefixed_token mode t val rest).1 rest
  unfolding prefixed_token prefixed_int
  prefixed_token-IsBehind hex_int t val rest = read_suffix-IsBehind no_suffix rest
  prefixed_token-IsBehind bin_int t val rest = read_suffix-IsBehind no_suffix rest
  prefixed_token-IsBehind hex_single t val rest = IsBehind-all rest
  prefixed_token-IsBehind bin_single t val rest = IsBehind-all rest
  prefixed_token-IsBehind hex_double t val rest = IsBehind-all rest
  prefixed_token-IsBehind bin_double t val rest = IsBehind-all rest

  point_suffix-IsBehind : (t : Token F) (rest : Str) → IsBehind (point_suffix t rest).1 rest
  unfolding point_suffix
  point_suffix-IsBehind t rest = elim (Bool-cases (peeks_letter b'l' rest)) [
    | inl e ↦ rw e (advance-IsBehind rest)
    | inr e ↦ elim (Bool-cases (peeks_letter b'f' rest)) [
      | inl f ↦ rw (e, f) (advance-IsBehind rest)
      | inr f ↦ rw (e, f) (IsBehind-all rest)
    ]
  ]

  -- Behind at least the first digit.
  lex_decimal-IsPast :
      (t : Token F) (c : ℕ) (rest : Str) (h : is_digit c ≡ true)
      → IsPast (lex_decimal t (c ∷ rest)).1 (c ∷ rest)
  unfolding lex_decimal lex_point lex_integer
  lex_decimal-IsPast t c rest h =
      let text : Str = c ∷ rest in
      let digits = read_digits decimal_digit 10 0 text in
      IsPast-both _ digits.1 text
        (elim (Bool-cases (peeks b'.' digits.1 && not (peeks b'.' (advance digits.1)))) [
          | inl e ↦ rw e (
              IsBehind-both _ _ digits.1 (point_suffix-IsBehind _ _) (
                IsBehind-both _ _ digits.1 (read_digits-IsBehind decimal_digit 10 0 _)
                  (advance-IsBehind digits.1)))
          | inr e ↦ rw e (read_suffix-IsBehind no_suffix digits.1)
        ])
        (first_digit-IsPast c rest h)

  pub lex_number-IsPast :
      (t : Token F) (text : Str) → Gives (λ r. IsPast r.1 text) (lex_number t text)
  unfolding lex_number lex_prefixed
  lex_number-IsPast t [] = tt
  lex_number-IsPast t (c ∷ rest) = elim (Bool-cases (is_digit c)) [
    | inl e ↦ elim (Option-cases (prefix_mode c rest)) [
      | inl f ↦ rw (e, f) (lex_decimal-IsPast t c rest e)
      | inr (mode, f) ↦
          rw (e, f)
            (IsBehind-one c _ rest (
              IsBehind-both _ _ rest (prefixed_token-IsBehind mode t _ _) (
                IsBehind-both _ _ rest (prefixed_digits-IsBehind mode (advance rest))
                  (advance-IsBehind rest))))
    ]
    | inr e ↦ rw e tt
  ]
