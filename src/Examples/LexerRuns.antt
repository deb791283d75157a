-- ===== src/Examples/LexerRuns.antt =====
-- Runs of the lexer and cases of its theorems.
use alkyl.Prelude.{
  ◌⊎◌, ◌%◌, ◌^◌, arith, same_text, [], ◌∷◌, ◌≡◌, refl, false, Option, none, some, Str, Run, ok,
  fault, out_of_bounds, codes, map, List, ◌↔◌, ◌+◌, ◌≤◌, take, length,
}
use alkyl.Lexer.Token.{
  LexerSettings, scope_indentation, comment_slash, Floats, Token, TokenType, token_assign,
  token_c_string, token_double_lit, token_identifier, token_kw_let, token_number, token_range_excl,
  token_semicolon, token_unknown,
}
use alkyl.Lexer.Skip.Blanks.{Skips, skip_whitespace_and_comments-Skips}
use alkyl.Lexer.Number.Value.{
  IsNumeral, no_digit, next_digit, numeral_value, number_token, lex_number-numeral,
}
use alkyl.Lexer.Skip.{opens_line, skip_step, is_unclosed, skip, skip_whitespace_and_comments}
use alkyl.Lexer.Symbol.{
  emit, on, on_two, on_equals, lex_range, lex_less, lex_greater, symbol_cases, first_case,
  lex_symbol,
}
use alkyl.Lexer.Keywords.{
  hash_from, hash_str, free_slot, add_keywords, init_kw_hash, find_keyword, lookup_keyword,
  keywords,
}
use alkyl.Lexer.Number.{
  decimal_digit, hex_digit, bin_digit, read_digits, suffix_byte, read_suffix, suffixed_type,
  prefix_mode, prefixed_digits, prefixed_int, prefixed_token, lex_prefixed, point_suffix, lex_point,
  lex_integer, lex_decimal, lex_number,
}
use alkyl.Lexer.Text.{
  escaped, string_byte, read_string, until_zero, consume_string_content, escape, sb_append_escaped,
  close_char, escaped_char, quoted_char, lex_char, string_token, lex_string,
}
use alkyl.Lexer.Word.{read_word, word_token, found_word, word_in, lex_word}
use alkyl.Lexer.State.{
  move_over, lexer_init, catch_up, skip_blanks, Lexer, bare_token, default_settings,
}
use alkyl.Lexer.Indent.{new_indent, open_block, close_blocks, change_indent}
use alkyl.Lexer.Next.{
  lex_other, or_word, or_string, or_char, or_number, or_symbol, lex_token, take_pending,
  queue_token, end_token, read_token, after_indent, next_token, lexer_next_from, lexer_next,
}
use alkyl.Lexer.Tokens.{all_tokens, Ends, all_tokens-init}
use alkyl.Lexer.Symbol.Longest.{Finds}
use alkyl.Lexer.Symbol.Table.{symbols, lex_symbol-Finds}
use alkyl.Lexer.Keywords.Lookup.{kw_hash, find_word, lookup_keyword-find_word}
use alkyl.Lexer.Text.RoundTrip.{consume_string_content-escaped}
use alkyl.Lexer.Past.Faults.{IsOpenQuote, lex_token-fault_iff}
use alkyl.Lexer.Room.{ReportsFull, Reaches-bounds}
use alkyl.Lexer.Places.{Reaches, reaches_start, reaches_next, newlines, last_line, Reaches-line}

-- Floating point numbers as the text or the number that they are made from.
abbrev pub floats : Floats
floats = record {
  Number = Str;
  zero_number = [];
  strtod = λ s. s;
  of_single_bits = λ n. n ∷ [];
  of_double_bits = λ n. n ∷ [];
  of_ulong_long = λ n. n ∷ [];
}

lex_symbol-Finds_example : Finds symbols (codes "..<=x") (lex_symbol (codes "..<=x"))
lex_symbol-Finds_example = lex_symbol-Finds (codes "..<=x")

lookup_keyword-find_word_example :
    (init_kw_hash ≡ some kw_hash)
    × (lookup_keyword kw_hash (codes "while") ≡ some (find_word keywords (codes "while")))
lookup_keyword-find_word_example = lookup_keyword-find_word (codes "while")

consume_string_content-escaped_example :
    consume_string_content (codes "a\\n\";") ≡ (codes "a\n", codes ";")
unfolding sb_append_escaped escape
consume_string_content-escaped_example =
    consume_string_content-escaped (codes "a\n") (codes ";") ((λ e. cc), ((λ e. cc), tt))

lex_token-fault_iff_example :
    (lex_token false (bare_token {F = floats} token_unknown 1 1) (codes "'") ≡ fault out_of_bounds)
    ↔ ((out_of_bounds ≡ out_of_bounds) × IsOpenQuote (codes "'"))
lex_token-fault_iff_example =
    lex_token-fault_iff false (bare_token {F = floats} token_unknown 1 1) (codes "'") out_of_bounds

abbrev sample : Str
sample = codes "let x = 0x1F; // end\n  \"a\\n\" ..< 2.5"

all_tokens-init_example : Ends (all_tokens 109 (lexer_init {F = floats} sample none))
all_tokens-init_example = all_tokens-init sample none

abbrev state_after : Run (Token floats × Lexer floats) → Lexer floats
state_after (ok r) = r.1
state_after (fault e) = lexer_init [] none

abbrev types : Option (Run (List (Token floats))) → List TokenType
types (some (ok ts)) = map (λ t. t.type) ts
types _ = []

all_tokens_run :
    types (all_tokens 109 (lexer_init {F = floats} sample none))
    ≡ token_kw_let ∷ token_identifier ∷ token_assign ∷ token_number ∷ token_semicolon
      ∷ token_c_string ∷ token_range_excl ∷ token_double_lit ∷ []
unfolding opens_line skip_step is_unclosed skip skip_whitespace_and_comments emit on on_two
    on_equals lex_range lex_less lex_greater symbol_cases first_case lex_symbol hash_from hash_str
    free_slot add_keywords init_kw_hash find_keyword lookup_keyword decimal_digit hex_digit
    bin_digit read_digits suffix_byte read_suffix suffixed_type prefix_mode prefixed_digits
    prefixed_int prefixed_token lex_prefixed point_suffix lex_point lex_integer lex_decimal
    lex_number escaped string_byte read_string until_zero consume_string_content close_char
    escaped_char quoted_char lex_char string_token lex_string read_word word_token found_word
    word_in lex_word move_over lexer_init catch_up skip_blanks new_indent open_block close_blocks
    change_indent lex_other or_word or_string or_char or_number or_symbol lex_token take_pending
    queue_token end_token read_token after_indent next_token lexer_next_from lexer_next all_tokens
    same_text
all_tokens_run = refl

abbrev start : Lexer floats
start = lexer_init (codes "a\nb") none

abbrev token_of : Run (Token floats × Lexer floats) → Token floats
token_of (ok r) = r.0
token_of (fault e) = bare_token token_unknown 0 0

abbrev second : Lexer floats
second = state_after (lexer_next start)

abbrev third : Lexer floats
third = state_after (lexer_next second)

start-Reaches : Reaches start third
unfolding opens_line skip_step is_unclosed skip skip_whitespace_and_comments emit on on_two
    on_equals lex_range lex_less lex_greater symbol_cases first_case lex_symbol hash_from hash_str
    free_slot add_keywords init_kw_hash find_keyword lookup_keyword decimal_digit hex_digit
    bin_digit read_digits suffix_byte read_suffix suffixed_type prefix_mode prefixed_digits
    prefixed_int prefixed_token lex_prefixed point_suffix lex_point lex_integer lex_decimal
    lex_number escaped string_byte read_string until_zero consume_string_content close_char
    escaped_char quoted_char lex_char string_token lex_string read_word word_token found_word
    word_in lex_word move_over lexer_init catch_up skip_blanks new_indent open_block close_blocks
    change_indent lex_other or_word or_string or_char or_number or_symbol lex_token take_pending
    queue_token end_token read_token after_indent next_token lexer_next_from lexer_next same_text
start-Reaches =
    reaches_next {t = token_of (lexer_next second)}
      (reaches_next {t = token_of (lexer_next start)} reaches_start refl) refl

Reaches-line_example :
    (third.pos ≤ 3)
    × (third.line ≡ 1 + newlines (take third.pos (codes "a\nb")))
    × (third.col ≡ 1 + last_line (take third.pos (codes "a\nb")))
Reaches-line_example = Reaches-line (codes "a\nb") none third start-Reaches

-- The second line is indented: a token of a block is queued before its first token.
abbrev indented : LexerSettings
indented = record default_settings { scope_style = scope_indentation; spaces_per_indent = 1 }

abbrev at_start : Lexer floats
at_start = lexer_init (codes "a\n b") (some indented)

abbrev at_indent : Lexer floats
at_indent = state_after (lexer_next at_start)

abbrev in_block : Lexer floats
in_block = state_after (lexer_next at_indent)

indented_run :
    Reaches at_start at_indent
    × (lexer_next at_indent ≡ ok (token_of (lexer_next at_indent), in_block))
    × (length in_block.pending_tokens ∷ length in_block.indent_stack ∷ [] ≡ 1 ∷ 1 ∷ [])
unfolding opens_line skip_step is_unclosed skip skip_whitespace_and_comments emit on on_two
    on_equals lex_range lex_less lex_greater symbol_cases first_case lex_symbol hash_from hash_str
    free_slot add_keywords init_kw_hash find_keyword lookup_keyword decimal_digit hex_digit
    bin_digit read_digits suffix_byte read_suffix suffixed_type prefix_mode prefixed_digits
    prefixed_int prefixed_token lex_prefixed point_suffix lex_point lex_integer lex_decimal
    lex_number escaped string_byte read_string until_zero consume_string_content close_char
    escaped_char quoted_char lex_char string_token lex_string read_word word_token found_word
    word_in lex_word move_over lexer_init catch_up skip_blanks new_indent open_block close_blocks
    change_indent lex_other or_word or_string or_char or_number or_symbol lex_token take_pending
    queue_token end_token read_token after_indent next_token lexer_next_from lexer_next same_text
indented_run = (reaches_next {t = token_of (lexer_next at_start)} reaches_start refl, refl, refl)

Reaches-bounds_example :
    (length in_block.pending_tokens ≤ 16)
    × (length in_block.indent_stack ≤ 127)
    × ((length in_block.pending_tokens ≤ 15) ⊎ ReportsFull in_block)
Reaches-bounds_example =
    Reaches-bounds (codes "a\n b") (some indented) at_indent in_block
      (token_of (lexer_next at_indent)) indented_run.0 indented_run.1

third_run : third.line ∷ third.col ∷ third.pos ∷ [] ≡ 2 ∷ 2 ∷ 3 ∷ []
unfolding opens_line skip_step is_unclosed skip skip_whitespace_and_comments emit on on_two
    on_equals lex_range lex_less lex_greater symbol_cases first_case lex_symbol hash_from hash_str
    free_slot add_keywords init_kw_hash find_keyword lookup_keyword decimal_digit hex_digit
    bin_digit read_digits suffix_byte read_suffix suffixed_type prefix_mode prefixed_digits
    prefixed_int prefixed_token lex_prefixed point_suffix lex_point lex_integer lex_decimal
    lex_number escaped string_byte read_string until_zero consume_string_content close_char
    escaped_char quoted_char lex_char string_token lex_string read_word word_token found_word
    word_in lex_word move_over lexer_init catch_up skip_blanks new_indent open_block close_blocks
    change_indent lex_other or_word or_string or_char or_number or_symbol lex_token take_pending
    queue_token end_token read_token after_indent next_token lexer_next_from lexer_next same_text
third_run = refl

abbrev blanks : Str
blanks = codes " // a\n/* b **/ x"

skip_whitespace_and_comments-Skips_example :
    (let r = skip_whitespace_and_comments comment_slash blanks in
      Skips comment_slash blanks r.0 r.1)
skip_whitespace_and_comments-Skips_example = skip_whitespace_and_comments-Skips comment_slash blanks

skip_run : skip_whitespace_and_comments comment_slash blanks ≡ (codes "x", false)
unfolding opens_line skip_step is_unclosed skip skip_whitespace_and_comments
skip_run = refl

numeral : IsNumeral decimal_digit (codes "42") (4 ∷ 2 ∷ [])
unfolding decimal_digit
numeral = next_digit refl (next_digit refl no_digit)

lex_number-numeral_example :
    lex_number (bare_token {F = floats} token_unknown 1 1) (codes "42;")
    ≡ some (
      number_token (bare_token token_unknown 1 1) (numeral_value 10 (4 ∷ 2 ∷ []) % 2 ^ 64),
      codes ";",
    )
lex_number-numeral_example =
    lex_number-numeral (bare_token token_unknown 1 1) numeral (λ e. cc) (codes ";")
      (refl, (λ e. omega (arith, e)))
