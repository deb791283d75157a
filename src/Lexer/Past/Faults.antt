-- ===== src/Lexer/Past/Faults.antt =====
-- The texts at which `lex_token` reads behind the terminator.
use alkyl.Prelude.{
  ℕ, [], ◌∷◌, ◌≡◌, refl, ap, ◌↔◌, ◌⊎◌, inl, inr, Bool, Option, none, some, Str, Run, ok, fault,
  out_of_bounds, Fault, ◌==◌, Bool-cases, arith,
}
use alkyl.Lexer.Token.{Token, Floats}
use alkyl.Lexer.Bytes.{is_ident_start}
use alkyl.Lexer.Symbol.{lex_symbol, first_case, symbol_cases}
use alkyl.Lexer.Number.{lex_number}
use alkyl.Lexer.Text.{close_char, escaped_char, quoted_char, lex_char, lex_string}
use alkyl.Lexer.Word.{lex_word}
use alkyl.Lexer.Next.{quiet, lex_token, or_symbol, or_number, or_char}
use alkyl.Lexer.Attempts.{Gives, lex_token-holds}
use alkyl.Lexer.Past.Tokens.{lex_word-find_word}

-- A quote, or a quote and a backslash, at the very end of the source.
abbrev pub IsOpenQuote : Str → Type 0
IsOpenQuote text = (text ≡ b'\'' ∷ []) ⊎ (text ≡ b'\'' ∷ b'\\' ∷ [])

-- What a run is when it is a fault.
abbrev Faults : Str → {A : Type 0} → Run A → Type 0
Faults text (ok a) = Unit
Faults text (fault e) = (e ≡ out_of_bounds) × IsOpenQuote text

any_attempt : {A : Type 0} {P : Type 0} (h : P) (o : Option A) → Gives (λ r. P) o
any_attempt h none = tt
any_attempt h (some a) = h

module _ {F : Floats} where
  quoted_char-Faults : (t : Token F) (text : Str) → Faults (b'\'' ∷ text) (quoted_char t text)
  unfolding quoted_char escaped_char close_char
  quoted_char-Faults t [] = (refl, inl refl)
  quoted_char-Faults t (c ∷ []) = elim (Bool-cases (c == b'\\')) [
    | inl e ↦ rw e (refl, inr (ap (λ d. b'\'' ∷ d ∷ []) (ground (arith, e))))
    | inr e ↦ rw e tt
  ]
  quoted_char-Faults t (c ∷ d ∷ rest) = elim (Bool-cases (c == b'\\')) [
    | inl e ↦ rw e tt
    | inr e ↦ rw e tt
  ]

  lex_char-Faults : (t : Token F) (text : Str) → Gives (Faults text) (lex_char t text)
  unfolding lex_char
  lex_char-Faults t [] = tt
  lex_char-Faults t (c ∷ rest) = elim (Bool-cases (c == b'\'')) [
    | inl e ↦ let same : c ≡ b'\'' = ground (arith, e) in rw e (rw same (quoted_char-Faults t rest))
    | inr e ↦ rw e tt
  ]

  lex_word-quiet :
      (text : Str) (t : Token F) (c : ℕ) (rest : Str)
      → Gives (λ r. Faults text (quiet r)) (lex_word t (c ∷ rest))
  unfolding lex_word
  lex_word-quiet text t c rest = elim (Bool-cases (is_ident_start c)) [
    | inl e ↦ rw (lex_word-find_word t c rest e) tt
    | inr e ↦ rw e tt
  ]

  lex_token-Faults :
      (quotes : Bool) (t : Token F) (text : Str) → Faults text (lex_token quotes t text)
  unfolding lex_token
  lex_token-Faults quotes t [] = tt
  lex_token-Faults quotes t (c ∷ rest) =
      lex_token-holds quotes t c rest (Faults (c ∷ rest)) (record {
        by_symbol = any_attempt tt (lex_symbol (c ∷ rest));
        by_number = any_attempt tt (lex_number t (c ∷ rest));
        by_char = lex_char-Faults t (c ∷ rest);
        by_string = any_attempt tt (lex_string quotes t (c ∷ rest));
        by_word = lex_word-quiet (c ∷ rest) t c rest;
        by_other = tt;
      })

  quote_alone :
      (quotes : Bool) (t : Token F) → lex_token quotes t (b'\'' ∷ []) ≡ fault out_of_bounds
  unfolding lex_token or_symbol lex_symbol symbol_cases first_case or_number lex_number or_char
      lex_char quoted_char
  quote_alone quotes t = refl

  quote_backslash :
      (quotes : Bool) (t : Token F) → lex_token quotes t (b'\'' ∷ b'\\' ∷ []) ≡ fault out_of_bounds
  unfolding lex_token or_symbol lex_symbol symbol_cases first_case or_number lex_number or_char
      lex_char quoted_char escaped_char
  quote_backslash quotes t = refl

  -- Reading a token goes wrong in one way, a read behind the terminator, and just where the source
  -- ends in a quote, or in a quote and a backslash, that begins a character literal.
  pub lex_token-fault_iff :
      (quotes : Bool) (t : Token F) (text : Str) (e : Fault)
      → (lex_token quotes t text ≡ fault e) ↔ ((e ≡ out_of_bounds) × IsOpenQuote text)
  lex_token-fault_iff quotes t text e = (
    λ h. rw h at (lex_token-Faults quotes t text),
    λ h. elim h.1 [
      | inl p ↦ rw (p, h.0) (quote_alone quotes t)
      | inr p ↦ rw (p, h.0) (quote_backslash quotes t)
    ],
  )
