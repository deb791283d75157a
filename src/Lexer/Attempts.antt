-- ===== src/Lexer/Attempts.antt =====
-- A property of what `lex_token` returns, from what each of its attempts gives.
use alkyl.Prelude.{ℕ, ◌∷◌, Bool, false, Option, none, some, Str, Run, ok, fault, bind}
use alkyl.Lexer.Token.{Token, Floats, TokenType}
use alkyl.Lexer.Symbol.{lex_symbol}
use alkyl.Lexer.Number.{lex_number}
use alkyl.Lexer.Text.{lex_char, lex_string}
use alkyl.Lexer.Word.{lex_word}
use alkyl.Lexer.Next.{
  Lexed, quiet, lex_other, or_word, or_string, or_char, or_number, or_symbol, lex_token,
}

-- A property of what an attempt or a run gives, where it gives something.
abbrev pub Gives {ℓ} : {A : Type ℓ} → (A → Type 0) → Option A → Type 0
Gives P none = Unit
Gives P (some a) = P a

abbrev pub Returns {ℓ} : {A : Type ℓ} → (A → Type 0) → Run A → Type 0
Returns P (fault e) = Unit
Returns P (ok a) = P a

pub bind-Returns :
    {A B : Type 0} (P : A → Type 0) (Q : B → Type 0) (r : Run A) (f : A → Run B)
    → Returns P r
    → ((a : A) → P a → Returns Q (f a))
    → Returns Q (bind r f)
bind-Returns P Q (ok a) f h g = g a h
bind-Returns P Q (fault e) f h g = tt

pub Returns-imp :
    {A : Type 0} (P Q : A → Type 0) (r : Run A) → Returns P r → ((a : A) → P a → Q a) → Returns Q r
Returns-imp P Q (ok a) h f = f a h
Returns-imp P Q (fault e) h f = tt

module _ {F : Floats} (quotes : Bool) (t : Token F) (c : ℕ) (rest : Str)
    (P : Run (Lexed F) → Type 0) where
  abbrev text : Str
  text = c ∷ rest

  pub record Attempts : Type 0 where
    pub by_symbol : Gives (λ r. P (ok (record t { type = r.0 }, r.1, false))) (lex_symbol text)
    pub by_number : Gives (λ r. P (ok (r.0, r.1, false))) (lex_number t text)
    pub by_char : Gives P (lex_char t text)
    pub by_string : Gives (λ r. P (ok (r.0, r.1, false))) (lex_string quotes t text)
    pub by_word : Gives (λ r. P (quiet r)) (lex_word t text)
    pub by_other : P (lex_other t text)

  module _ (a : Attempts) where
    or_word-holds :
        (o : Option (Run (Token F × Str))) → Gives (λ r. P (quiet r)) o → P (or_word t text o)
    unfolding or_word
    or_word-holds none h = a.by_other
    or_word-holds (some r) h = h

    or_string-holds :
        (o : Option (Token F × Str))
        → Gives (λ r. P (ok (r.0, r.1, false))) o
        → P (or_string quotes t text o)
    unfolding or_string
    or_string-holds none h = or_word-holds (lex_word t text) a.by_word
    or_string-holds (some r) h = h

    or_char-holds : (o : Option (Run (Lexed F))) → Gives P o → P (or_char quotes t text o)
    unfolding or_char
    or_char-holds none h = or_string-holds (lex_string quotes t text) a.by_string
    or_char-holds (some r) h = h

    or_number-holds :
        (o : Option (Token F × Str))
        → Gives (λ r. P (ok (r.0, r.1, false))) o
        → P (or_number quotes t text o)
    unfolding or_number
    or_number-holds none h = or_char-holds (lex_char t text) a.by_char
    or_number-holds (some r) h = h

    or_symbol-holds :
        (o : Option (TokenType × Str))
        → Gives (λ r. P (ok (record t { type = r.0 }, r.1, false))) o
        → P (or_symbol quotes t text o)
    unfolding or_symbol
    or_symbol-holds none h = or_number-holds (lex_number t text) a.by_number
    or_symbol-holds (some r) h = h

    pub lex_token-holds : P (lex_token quotes t text)
    unfolding lex_token
    lex_token-holds = or_symbol-holds (lex_symbol text) a.by_symbol
