-- ===== src/Lsp.antt =====
-- src/driver/lsp.c: the semantic tokens of `generate_semantic_tokens`.
pub mod Decode
use alkyl.Prelude.{
  ℕ, ◌+◌, ◌-◌, ◌%◌, ◌^◌, List, [], ◌∷◌, ◌++◌, Bool, true, false, not, ◌&&◌, ◌||◌, Option, none,
  some, Str, codes, same_text, leb, ◌==◌, if◌then◌else◌,
}
use alkyl.Lexer.Token.{
  Token, Floats, TokenType, token_and_assign, token_as, token_assign, token_break,
  token_byte_string, token_char_lit, token_class, token_closed, token_comma, token_compound,
  token_const, token_continue, token_define, token_else, token_eof, token_extended, token_for,
  token_frame, token_identifier, token_if, token_import, token_impure, token_inert, token_infmut,
  token_infop, token_kw_bool, token_kw_char, token_kw_double, token_kw_int, token_kw_let,
  token_kw_long, token_kw_mut, token_kw_short, token_kw_single, token_kw_unsigned, token_kw_void,
  token_link, token_lshift_assign, token_meta, token_minus_assign, token_mod_assign, token_naked,
  token_namespace, token_number, token_open, token_or_assign, token_plus_assign, token_postmeta,
  token_prefop, token_premut, token_pristine, token_private, token_public, token_pure, token_purge,
  token_reactive, token_return, token_rshift_assign, token_single_lit, token_slash_assign,
  token_star_assign, token_string, token_struct, token_suffop, token_sufmut, token_tainted,
  token_typedef, token_while, token_xor_assign,
}

-- The tests of a token's type. The two that compare with the bounds of a range of the enumeration,
-- `is_number_type` and `is_operator_type`, are written out.
unfoldable pub is_keyword_type : TokenType → Bool
is_keyword_type token_kw_let = true
is_keyword_type token_kw_mut = true
is_keyword_type token_class = true
is_keyword_type token_struct = true
is_keyword_type token_namespace = true
is_keyword_type token_if = true
is_keyword_type token_else = true
is_keyword_type token_while = true
is_keyword_type token_for = true
is_keyword_type token_return = true
is_keyword_type token_break = true
is_keyword_type token_continue = true
is_keyword_type token_typedef = true
is_keyword_type token_as = true
is_keyword_type token_infop = true
is_keyword_type token_prefop = true
is_keyword_type token_suffop = true
is_keyword_type token_infmut = true
is_keyword_type token_premut = true
is_keyword_type token_sufmut = true
is_keyword_type token_define = true
is_keyword_type token_purge = true
is_keyword_type token_compound = true
is_keyword_type token_public = true
is_keyword_type token_private = true
is_keyword_type token_open = true
is_keyword_type token_closed = true
is_keyword_type token_inert = true
is_keyword_type token_reactive = true
is_keyword_type token_naked = true
is_keyword_type token_extended = true
is_keyword_type token_pure = true
is_keyword_type token_impure = true
is_keyword_type token_pristine = true
is_keyword_type token_tainted = true
is_keyword_type token_const = true
is_keyword_type token_meta = true
is_keyword_type token_postmeta = true
is_keyword_type token_frame = true
is_keyword_type token_import = true
is_keyword_type token_link = true
is_keyword_type _ = false

unfoldable pub is_primitive_type : TokenType → Bool
is_primitive_type token_kw_int = true
is_primitive_type token_kw_void = true
is_primitive_type token_kw_char = true
is_primitive_type token_kw_bool = true
is_primitive_type token_kw_single = true
is_primitive_type token_kw_double = true
is_primitive_type token_kw_short = true
is_primitive_type token_kw_long = true
is_primitive_type token_kw_unsigned = true
is_primitive_type _ = false

unfoldable pub is_number_type : TokenType → Bool
is_number_type token_number = true
is_number_type token_single_lit = true
is_number_type _ = false

unfoldable pub is_string_type : TokenType → Bool
is_string_type token_string = true
is_string_type token_byte_string = true
is_string_type token_char_lit = true
is_string_type _ = false

unfoldable pub is_operator_type : TokenType → Bool
is_operator_type token_assign = true
is_operator_type token_plus_assign = true
is_operator_type token_minus_assign = true
is_operator_type token_star_assign = true
is_operator_type token_slash_assign = true
is_operator_type token_mod_assign = true
is_operator_type token_and_assign = true
is_operator_type token_or_assign = true
is_operator_type token_xor_assign = true
is_operator_type token_lshift_assign = true
is_operator_type token_rshift_assign = true
is_operator_type _ = false

unfoldable pub names_type : TokenType → Bool
names_type token_class = true
names_type token_struct = true
names_type token_namespace = true
names_type token_typedef = true
names_type token_as = true
names_type token_purge = true
names_type token_define = true
names_type _ = false

unfoldable pub names_variable : TokenType → Bool
names_variable token_kw_let = true
names_variable token_kw_mut = true
names_variable _ = false

unfoldable pub is_identifier : TokenType → Bool
is_identifier token_identifier = true
is_identifier _ = false

unfoldable pub is_comma : TokenType → Bool
is_comma token_comma = true
is_comma _ = false

-- `last_type` and `last_was_type_keyword`.
pub record Last : Type 0 where
  pub last_type : TokenType
  pub last_was_type_keyword : Bool

-- Whether a text is there and is `type`, and whether it begins with a capital letter.
unfoldable pub is_type_word : Option Str → Bool
is_type_word none = false
is_type_word (some word) = same_text word (codes "type")

unfoldable pub is_pascal_case : Option Str → Bool
is_pascal_case none = false
is_pascal_case (some []) = false
is_pascal_case (some (c ∷ word)) = leb b'A' c && leb c b'Z'

-- The difference of two `int`s, on 32 bits.
unfoldable pub int_sub : ℕ → ℕ → ℕ
int_sub a b = (a + 2 ^ 32 - b) % 2 ^ 32

module _ {F : Floats} where
  -- `current_is_type_keyword`, and the kind that is highlighted, which is `none` for -1.
  unfoldable pub is_type_keyword : Token F → Bool
  unfolding is_identifier is_type_word
  is_type_keyword t = is_identifier t.type && is_type_word t.text

  unfoldable pub identifier_type : Last → Token F → ℕ
  unfolding names_type names_variable is_pascal_case
  identifier_type last t =
      if names_type last.last_type || last.last_was_type_keyword
      then 0
      else if names_variable last.last_type
      then 1
      else if is_pascal_case t.text
      then 0
      else 1

  unfoldable pub semantic_type : Last → Token F → Option ℕ
  unfolding is_type_keyword is_keyword_type is_primitive_type is_number_type is_string_type
      is_operator_type identifier_type
  semantic_type last t =
      if is_type_keyword t
      then some 4
      else if is_keyword_type t.type
      then some 4
      else if is_primitive_type t.type
      then some 0
      else if is_number_type t.type
      then some 5
      else if is_string_type t.type
      then some 6
      else if is_operator_type t.type
      then some 7
      else if is_identifier t.type
      then some (identifier_type last t)
      else none

  unfoldable pub next_last : Last → Token F → Last
  unfolding is_comma is_type_keyword
  next_last last t =
      if is_comma t.type
      then last
      else record { last_type = t.type; last_was_type_keyword = is_type_keyword t }

  -- The five entries of a token of `type`, behind one at `prev_line` and `prev_col`.
  unfoldable pub entries : ℕ → ℕ → Token F → ℕ → List ℕ
  unfolding int_sub
  entries prev_line prev_col t type =
      let delta_line = int_sub t.line prev_line in
      let delta_start = if delta_line == 0 then int_sub t.col prev_col else int_sub t.col 1 in
      delta_line ∷ delta_start ∷ t.length ∷ type ∷ 0 ∷ []

  -- The loop, over the tokens before the one that ends it.
  unfoldable pub semantic_tokens : Last → ℕ → ℕ → List (Token F) → List ℕ
  unfolding semantic_type next_last entries
  semantic_tokens last prev_line prev_col [] = []
  semantic_tokens last prev_line prev_col (t ∷ ts) = elim (semantic_type last t) [
    | none ↦ semantic_tokens (next_last last t) prev_line prev_col ts
    | some type ↦
        entries prev_line prev_col t type ++ semantic_tokens (next_last last t) t.line t.col ts
  ]

  unfoldable pub generate_semantic_tokens : List (Token F) → List ℕ
  unfolding semantic_tokens
  generate_semantic_tokens ts =
      semantic_tokens (record { last_type = token_eof; last_was_type_keyword = false }) 1 1 ts
