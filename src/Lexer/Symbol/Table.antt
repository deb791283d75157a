-- ===== src/Lexer/Symbol/Table.antt =====
-- The symbols of the language, and that `lex_symbol` finds the longest of them.
use alkyl.Prelude.{List, [], ◌∷◌, ◌≡◌, inl, inr, Str, codes, ◌==◌, Bool-cases, arith, ◌&&◌}
use alkyl.Lexer.Token.{
  TokenType, token_and, token_and_and, token_and_assign, token_assign, token_at, token_bit_not,
  token_colon, token_comma, token_decrement, token_dollar, token_dot, token_ellipsis, token_eq,
  token_gt, token_gte, token_increment, token_lbrace, token_lbracket, token_lparen, token_lrotate,
  token_lshift, token_lshift_assign, token_lt, token_lte, token_minus, token_minus_assign,
  token_mod, token_mod_assign, token_neq, token_not, token_or, token_or_assign, token_or_or,
  token_plus, token_plus_assign, token_question, token_question_question, token_range,
  token_range_excl, token_range_excl_gt, token_range_incl, token_range_incl_gte,
  token_range_incl_lte, token_rbrace, token_rbracket, token_rparen, token_rrotate, token_rshift,
  token_rshift_assign, token_semicolon, token_slash, token_slash_assign, token_star,
  token_star_assign, token_walrus, token_xor, token_xor_assign,
}
use alkyl.Lexer.Symbol.{
  emit, on_two, on_equals, lex_range, lex_less, lex_greater, symbol_cases, lex_symbol,
}
use alkyl.Lexer.Symbol.Longest.{
  ◌▹◌, covered, Spelling, IsLongest, Finds, Begins, on-IsLongest, emit-IsLongest, first_case-Finds,
  on_equals-IsLongest, not-Begins, Begins-tail, read-IsLongest,
}

-- The symbols of the language.
abbrev pub symbols : List Spelling
symbols =
    (codes "...", token_ellipsis)
    ∷ (codes "..=", token_range_incl)
    ∷ (codes "..<=", token_range_incl_lte)
    ∷ (codes "..<", token_range_excl)
    ∷ (codes "..>=", token_range_incl_gte)
    ∷ (codes "..>", token_range_excl_gt)
    ∷ (codes "..", token_range)
    ∷ (codes ".", token_dot)
    ∷ (codes ",", token_comma)
    ∷ (codes ":=", token_walrus)
    ∷ (codes ":", token_colon)
    ∷ (codes "[", token_lbracket)
    ∷ (codes "]", token_rbracket)
    ∷ (codes "{", token_lbrace)
    ∷ (codes "}", token_rbrace)
    ∷ (codes "(", token_lparen)
    ∷ (codes ")", token_rparen)
    ∷ (codes ";", token_semicolon)
    ∷ (codes "~", token_bit_not)
    ∷ (codes "==", token_eq)
    ∷ (codes "=", token_assign)
    ∷ (codes "+=", token_plus_assign)
    ∷ (codes "++", token_increment)
    ∷ (codes "+", token_plus)
    ∷ (codes "-=", token_minus_assign)
    ∷ (codes "--", token_decrement)
    ∷ (codes "-", token_minus)
    ∷ (codes "*=", token_star_assign)
    ∷ (codes "*", token_star)
    ∷ (codes "/=", token_slash_assign)
    ∷ (codes "/", token_slash)
    ∷ (codes "%>>", token_rrotate)
    ∷ (codes "%=", token_mod_assign)
    ∷ (codes "%", token_mod)
    ∷ (codes "&&", token_and_and)
    ∷ (codes "&=", token_and_assign)
    ∷ (codes "&", token_and)
    ∷ (codes "||", token_or_or)
    ∷ (codes "|=", token_or_assign)
    ∷ (codes "|", token_or)
    ∷ (codes "^=", token_xor_assign)
    ∷ (codes "^", token_xor)
    ∷ (codes "!=", token_neq)
    ∷ (codes "!", token_not)
    ∷ (codes "??", token_question_question)
    ∷ (codes "?", token_question)
    ∷ (codes "$", token_dollar)
    ∷ (codes "@", token_at)
    ∷ (codes "<<%", token_lrotate)
    ∷ (codes "<<=", token_lshift_assign)
    ∷ (codes "<<", token_lshift)
    ∷ (codes "<=", token_lte)
    ∷ (codes "<", token_lt)
    ∷ (codes ">>=", token_rshift_assign)
    ∷ (codes ">>", token_rshift)
    ∷ (codes ">=", token_gte)
    ∷ (codes ">", token_gt)
    ∷ []

-- A spelling that the text does not begin with changes nothing.
more-IsLongest :
    (e : Spelling) (table : List Spelling) (text : Str) (r : TokenType × Str)
    (h : ¬ Begins text e.0)
    → IsLongest table text r
    → IsLongest (e ∷ table) text r
more-IsLongest e table text r h l = record {
  spelling = l.spelling;
  spelt = inr l.spelt;
  joined = l.joined;
  most = ((λ b. absurd (h b)), l.most);
}

-- What follows `%`.
rotation-IsLongest :
    (text : Str)
    → IsLongest
        ((codes ">>", token_rrotate) ∷ (codes "=", token_mod_assign) ∷ ([], token_mod) ∷ [])
        text
        (on_two b'>' b'>' (emit token_rrotate) (on_equals token_mod_assign token_mod) text)
unfolding on_two
rotation-IsLongest [] =
    more-IsLongest _ _ [] _ (not-Begins b'>' (b'>' ∷ [])) (on_equals-IsLongest _ _ [])
rotation-IsLongest (c ∷ []) =
    more-IsLongest _ _ (c ∷ []) _ (λ b. not-Begins b'>' [] (Begins-tail c b'>' (b'>' ∷ []) [] b).1)
      (on_equals-IsLongest _ _ (c ∷ []))
rotation-IsLongest (c ∷ d ∷ rest) = elim (Bool-cases (c == b'>' && d == b'>')) [
  | inl e ↦
      let first : c ≡ b'>' = ground (arith, e) in
      let second : d ≡ b'>' = ground (arith, e) in
      rw e (
        rw (first, second)
          (read-IsLongest b'>' _ _ _ (read-IsLongest b'>' _ _ _ (emit-IsLongest _ rest))))
  | inr e ↦ rw e (
      more-IsLongest _ _ (c ∷ d ∷ rest) _
        (λ b.
          let first = Begins-tail c b'>' (b'>' ∷ []) (d ∷ rest) b in
          ground (arith, e, first.0, (Begins-tail d b'>' [] rest first.1).0))
        (on_equals-IsLongest _ _ (c ∷ d ∷ rest)))
]

-- Finds in the table of symbols the longest that the text begins with, or none when there is none.
pub lex_symbol-Finds : (text : Str) → Finds symbols text (lex_symbol text)
unfolding lex_symbol symbol_cases lex_range lex_less lex_greater
lex_symbol-Finds = first_case-Finds {table = symbols} (
    on-IsLongest b'.' _ _ _
      (on-IsLongest b'.' _ _ _ (emit-IsLongest _) (
        on-IsLongest b'=' _ _ _ (emit-IsLongest _) (
          on-IsLongest b'<' _ _ _ (on_equals-IsLongest _ _)
            (on-IsLongest b'>' _ _ _ (on_equals-IsLongest _ _) (emit-IsLongest _)))))
      (emit-IsLongest _)
    ▹ emit-IsLongest _
    ▹ on_equals-IsLongest _ _
    ▹ emit-IsLongest _
    ▹ emit-IsLongest _
    ▹ emit-IsLongest _
    ▹ emit-IsLongest _
    ▹ emit-IsLongest _
    ▹ emit-IsLongest _
    ▹ emit-IsLongest _
    ▹ emit-IsLongest _
    ▹ on_equals-IsLongest _ _
    ▹ on-IsLongest b'=' _ _ _ (emit-IsLongest _)
        (on-IsLongest b'+' _ _ _ (emit-IsLongest _) (emit-IsLongest _))
    ▹ on-IsLongest b'=' _ _ _ (emit-IsLongest _)
        (on-IsLongest b'-' _ _ _ (emit-IsLongest _) (emit-IsLongest _))
    ▹ on_equals-IsLongest _ _
    ▹ on_equals-IsLongest _ _
    ▹ rotation-IsLongest
    ▹ on-IsLongest b'&' _ _ _ (emit-IsLongest _) (on_equals-IsLongest _ _)
    ▹ on-IsLongest b'|' _ _ _ (emit-IsLongest _) (on_equals-IsLongest _ _)
    ▹ on_equals-IsLongest _ _
    ▹ on_equals-IsLongest _ _
    ▹ on-IsLongest b'?' _ _ _ (emit-IsLongest _) (emit-IsLongest _)
    ▹ emit-IsLongest _
    ▹ emit-IsLongest _
    ▹ on-IsLongest b'<' _ _ _ (on-IsLongest b'%' _ _ _ (emit-IsLongest _) (on_equals-IsLongest _ _))
        (on_equals-IsLongest _ _)
    ▹ on-IsLongest b'>' _ _ _ (on_equals-IsLongest _ _) (on_equals-IsLongest _ _)
    ▹ covered)
