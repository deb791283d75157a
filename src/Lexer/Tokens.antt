-- ===== src/Lexer/Tokens.antt =====
-- src/driver/lsp.c: the loop over the tokens of a source.
use alkyl.Prelude.{
  ℕ, zero, suc, ◌+◌, ◌*◌, ◌<◌, List, [], ◌∷◌, ◌≡◌, refl, inl, inr, Bool, true, false, ◌||◌, Option,
  none, some, Str, Run, ok, fault, length, Bool-cases, Run-cases, arith,
}
use alkyl.Lexer.Token.{Token, Floats, TokenType, LexerSettings, token_unknown}
use alkyl.Lexer.State.{Lexer, lexer_init}
use alkyl.Lexer.Next.{is_eof, lexer_next}
use alkyl.Lexer.Weight.{measure}
use alkyl.Lexer.Progress.{lexer_next-Progresses}

abbrev is_unknown : TokenType → Bool
is_unknown token_unknown = true
is_unknown _ = false

module _ {F : Floats} where
  abbrev with_first : Token F → Option (Run (List (Token F))) → Option (Run (List (Token F)))
  with_first t none = none
  with_first t (some (ok ts)) = some (ok (t ∷ ts))
  with_first t (some (fault e)) = some (fault e)

  -- The tokens before the first that ends the loop; `none` when `n` calls do not reach it.
  unfoldable pub all_tokens : ℕ → Lexer F → Option (Run (List (Token F)))
  all_tokens zero l = none
  all_tokens (suc n) l = elim (lexer_next l) [
    | fault e ↦ some (fault e)
    | ok r ↦ elim (is_eof r.0.type || is_unknown r.0.type) [
      | true ↦ some (ok [])
      | false ↦ with_first r.0 (all_tokens n r.1)
    ]
  ]

  abbrev pub Ends : Option (Run (List (Token F))) → Type 0
  Ends o = (r : Run (List (Token F))) × (o ≡ some r)

  with_first-Ends :
      (t : Token F) (o : Option (Run (List (Token F)))) → Ends o → Ends (with_first t o)
  with_first-Ends t none (r, e) = absurd (cc)
  with_first-Ends t (some (ok ts)) h = (ok (t ∷ ts), refl)
  with_first-Ends t (some (fault e)) h = (fault e, refl)

  all_tokens-Ends : (n : ℕ) (l : Lexer F) → measure l < n → Ends (all_tokens n l)
  unfolding all_tokens
  all_tokens-Ends zero l h = absurd (omega (arith, h))
  all_tokens-Ends (suc n) l h = elim (Run-cases (lexer_next l)) [
    | inl (r, e) ↦
        let near = rw e at (lexer_next-Progresses l) in
        elim (Bool-cases (is_eof r.0.type || is_unknown r.0.type)) [
          | inl f ↦ rw (e, f, all_tokens) (ok [], refl)
          | inr f ↦
              rw (e, f, all_tokens)
                (with_first-Ends r.0 (all_tokens n r.1) (
                  all_tokens-Ends n r.1 (elim near [
                    | inl eof ↦ absurd (ground (arith, eof, f))
                    | inr less ↦ omega (arith, less, h)
                  ])))
        ]
    | inr (f, e) ↦ rw (e, all_tokens) (fault f, refl)
  ]

  -- Reading the tokens of a source one after the other ends, with the tokens or with a fault, within
  -- three calls for each byte and one more.
  pub all_tokens-init :
      (src : Str) (settings : Option LexerSettings)
      → Ends (all_tokens (3 * length src + 1) (lexer_init src settings))
  unfolding lexer_init
  all_tokens-init src settings = all_tokens-Ends _ (lexer_init src settings) (omega arith)
