-- ===== src/Examples/LspRuns.antt =====
-- Runs of the semantic tokens of the language server and a case of their theorem.
use alkyl.Prelude.{List, [], ◌∷◌, ◌≡◌, refl, false, some, codes, same_text, arith}
use alkyl.Lexer.Token.{Token, token_eof, token_kw_let, token_identifier, token_assign}
use alkyl.Lexer.State.{bare_token}
use alkyl.Lsp.{
  is_keyword_type, is_primitive_type, is_number_type, is_string_type, is_operator_type, names_type,
  names_variable, is_identifier, is_comma, is_type_word, is_pascal_case, is_type_keyword,
  identifier_type, semantic_type, next_last, int_sub, entries, semantic_tokens,
  generate_semantic_tokens,
}
use alkyl.Lsp.Decode.{marks_from, highlighted, generate_semantic_tokens-marks}
use alkyl.Examples.LexerRuns.{floats}

-- The tokens of `let` on the first line, and of `Some =` on the second.
abbrev three_tokens : List (Token floats)
three_tokens =
    record (bare_token token_kw_let 1 1) { length = 3 }
    ∷ record (bare_token token_identifier 2 3) { length = 4; text = some (codes "Some") }
    ∷ record (bare_token token_assign 2 8) { length = 1 }
    ∷ []

generate_semantic_tokens-marks_example :
    marks_from 1 1 (generate_semantic_tokens three_tokens)
    ≡ highlighted (record { last_type = token_eof; last_was_type_keyword = false }) three_tokens
generate_semantic_tokens-marks_example =
    generate_semantic_tokens-marks three_tokens
      ((omega arith, omega arith), ((omega arith, omega arith), ((omega arith, omega arith), tt)))

generate_semantic_tokens_run :
    generate_semantic_tokens three_tokens
    ≡ 0 ∷ 0 ∷ 3 ∷ 4 ∷ 0 ∷ 1 ∷ 2 ∷ 4 ∷ 1 ∷ 0 ∷ 0 ∷ 5 ∷ 1 ∷ 7 ∷ 0 ∷ []
unfolding is_keyword_type is_primitive_type is_number_type is_string_type is_operator_type
    names_type names_variable is_identifier is_comma is_type_word is_pascal_case is_type_keyword
    identifier_type semantic_type next_last int_sub entries semantic_tokens generate_semantic_tokens
    same_text
generate_semantic_tokens_run = refl
