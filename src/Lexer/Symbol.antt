-- ===== src/Lexer/Symbol.antt =====
-- src/lexer/lexer.c: `lex_symbol`. A text is what is left of the source, up to its terminator.
pub mod Longest
pub mod Table
use alkyl.Prelude.{ℕ, List, [], ◌∷◌, ◌&&◌, Option, none, some, Str, ◌==◌, if◌then◌else◌}
use alkyl.Lexer.Token.{
  TokenType, token_and, token_and_and, token_and_assign, token_assign, token_at, token_bit_not,
  token_colon, token_comma, token_decrement, token_dollar, token_dot, token_ellipsis, token_eq,
  token_gt, token_gte, token_increment, token_lbrace, token_lbracket, token_lparen, token_lrotate,
  token_lshift, token_lshift_assign, token_lt, token_lte, token_minus, token_minus_assign,
  token_mod, token_mod_assign, token_neq, token_not, token_or, token_or_assign, token_or_or,
  token_plus, token_plus_assign, token_question, token_question_question, token_range,
  token_range_excl, token_range_excl_gt, token_range_incl, token_range_incl_gte,
  token_range_incl_lte, token_rbrace, token_rbracket, token_rparen, token_rrotate, token_rshift,
  token_rshift_assign, token_semicolon, token_slash, token_slash_assign, token_star,
  token_star_assign, token_walrus, token_xor, token_xor_assign,
}

-- The rest of a symbol whose first byte has been read: the token, and the text behind it.
abbrev pub Scan : Type 0
Scan = Str → TokenType × Str

-- `emit t`: the token is complete. `on c k o`: the next byte is `c`, which is read, or not.
unfoldable pub emit : TokenType → Scan
emit t rest = (t, rest)

unfoldable pub on : ℕ → Scan → Scan → Scan
on c then_next otherwise [] = otherwise []
on c then_next otherwise (d ∷ rest) = if d == c then then_next rest else otherwise (d ∷ rest)

-- The two bytes that make `%` a rotation are tested before either is read.
unfoldable pub on_two : ℕ → ℕ → Scan → Scan → Scan
on_two a b then_next otherwise [] = otherwise []
on_two a b then_next otherwise (c ∷ []) = otherwise (c ∷ [])
on_two a b then_next otherwise (c ∷ d ∷ rest) =
    if c == a && d == b then then_next rest else otherwise (c ∷ d ∷ rest)

unfoldable pub on_equals : TokenType → TokenType → Scan
unfolding on emit
on_equals assign plain = on b'=' (emit assign) (emit plain)

unfoldable pub lex_range : Scan
unfolding on emit on_equals
lex_range = on b'.' (emit token_ellipsis) (
    on b'=' (emit token_range_incl) (
      on b'<' (on_equals token_range_incl_lte token_range_excl)
        (on b'>' (on_equals token_range_incl_gte token_range_excl_gt) (emit token_range))))

unfoldable pub lex_less : Scan
unfolding on emit on_equals
lex_less =
    on b'<' (on b'%' (emit token_lrotate) (on_equals token_lshift_assign token_lshift))
      (on_equals token_lte token_lt)

unfoldable pub lex_greater : Scan
unfolding on on_equals
lex_greater = on b'>' (on_equals token_rshift_assign token_rshift) (on_equals token_gte token_gt)

-- What is done for each first byte, in the order of the tests.
unfoldable pub symbol_cases : List (ℕ × Scan)
unfolding on on_two emit on_equals lex_range lex_less lex_greater
symbol_cases =
    (b'.', on b'.' lex_range (emit token_dot))
    ∷ (b',', emit token_comma)
    ∷ (b':', on_equals token_walrus token_colon)
    ∷ (b'[', emit token_lbracket)
    ∷ (b']', emit token_rbracket)
    ∷ (b'{', emit token_lbrace)
    ∷ (b'}', emit token_rbrace)
    ∷ (b'(', emit token_lparen)
    ∷ (b')', emit token_rparen)
    ∷ (b';', emit token_semicolon)
    ∷ (b'~', emit token_bit_not)
    ∷ (b'=', on_equals token_eq token_assign)
    ∷ (b'+', on b'=' (emit token_plus_assign) (on b'+' (emit token_increment) (emit token_plus)))
    ∷ (b'-', on b'=' (emit token_minus_assign) (on b'-' (emit token_decrement) (emit token_minus)))
    ∷ (b'*', on_equals token_star_assign token_star)
    ∷ (b'/', on_equals token_slash_assign token_slash)
    ∷ (b'%', on_two b'>' b'>' (emit token_rrotate) (on_equals token_mod_assign token_mod))
    ∷ (b'&', on b'&' (emit token_and_and) (on_equals token_and_assign token_and))
    ∷ (b'|', on b'|' (emit token_or_or) (on_equals token_or_assign token_or))
    ∷ (b'^', on_equals token_xor_assign token_xor)
    ∷ (b'!', on_equals token_neq token_not)
    ∷ (b'?', on b'?' (emit token_question_question) (emit token_question))
    ∷ (b'$', emit token_dollar)
    ∷ (b'@', emit token_at)
    ∷ (b'<', lex_less)
    ∷ (b'>', lex_greater)
    ∷ []

-- The case of the next byte; at the terminator and for any other byte there is none.
unfoldable pub first_case : List (ℕ × Scan) → Str → Option (TokenType × Str)
first_case [] text = none
first_case (k ∷ cases) [] = none
first_case (k ∷ cases) (d ∷ rest) =
    if d == k.0 then some (k.1 rest) else first_case cases (d ∷ rest)

unfoldable pub lex_symbol : Str → Option (TokenType × Str)
unfolding first_case symbol_cases
lex_symbol text = first_case symbol_cases text
