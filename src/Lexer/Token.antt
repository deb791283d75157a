-- ===== src/Lexer/Token.antt =====
-- include/lexer/lexer.h: the kinds of tokens, tokens and settings; the reports of the lexer.
use alkyl.Prelude.{ℕ, Option, Str, Bool}

pub data TokenType : Type 0 where
  token_eof token_loop token_while token_once token_lbracket token_rbracket token_lbrace : TokenType
  token_rbrace token_lparen token_rparen token_semicolon token_colon token_walrus : TokenType
  token_question token_dollar token_question_question token_comma token_ellipsis : TokenType
  token_dot token_at token_range_incl token_range_excl token_range_incl_gte : TokenType
  token_range_excl_gt token_range_incl_lte token_range token_number token_single_lit : TokenType
  token_string token_c_string token_byte_string token_char_lit token_identifier : TokenType
  token_assign token_plus_assign token_minus_assign token_star_assign token_slash_assign : TokenType
  token_mod_assign token_and_assign token_or_assign token_xor_assign token_lshift_assign : TokenType
  token_rshift_assign token_alir token_if token_then token_else token_return token_purge : TokenType
  token_break token_continue token_stop token_switch token_case token_default token_leak : TokenType
  token_wash token_residue token_untaint token_define token_as token_being token_typedef : TokenType
  token_meta token_postmeta token_premeta token_union token_is token_has token_open : TokenType
  token_closed token_public token_private token_naked token_reactive token_inert : TokenType
  token_pure token_impure token_tainted token_clean token_pristine token_partial : TokenType
  token_total token_class token_struct token_accept token_reject token_typeof : TokenType
  token_hasmethod token_hasattribute token_namespace token_enum token_errnum token_flux : TokenType
  token_emit token_for token_in token_abstract token_container token_exact token_frame : TokenType
  token_method token_pragma token_kw_void token_kw_int token_kw_char token_kw_bool : TokenType
  token_kw_single token_kw_double token_kw_let token_kw_sizeof token_kw_alignof : TokenType
  token_kw_defined token_kw_iscompatible token_defer token_extended token_override : TokenType
  token_kw_short token_kw_long token_kw_unsigned token_kw_signed token_ulong_long_lit : TokenType
  token_long_long_lit token_ulong_lit token_long_lit token_uint_lit : TokenType
  token_long_double_lit token_double_lit token_kw_mut token_kw_imut token_const : TokenType
  token_import token_export token_extern token_link token_reason token_compound : TokenType
  token_true token_false token_null token_not token_bit_not token_plus token_increment : TokenType
  token_minus token_decrement token_star token_slash token_mod token_and token_or : TokenType
  token_xor token_lshift token_rshift token_lrotate token_rrotate token_and_and : TokenType
  token_or_or token_eq token_neq token_lt token_gt token_lte token_gte token_covalent : TokenType
  token_infmut token_premut token_sufmut token_infop token_prefop token_suffop : TokenType
  token_unknown : TokenType

-- The floating point numbers of C, and its four ways to make one here: 0.0, `strtod`, the
-- reading of 32 or 64 bits as a number, and the conversion of an `unsigned long long`.
pub record Floats : Type 1 where
  pub Number : Type 0
  pub zero_number : Number
  pub strtod : Str → Number
  pub of_single_bits : ℕ → Number
  pub of_double_bits : ℕ → Number
  pub of_ulong_long : ℕ → Number

-- `int_val` is an `int` in two's complement, below 2 ^ 32, and `long_val` is below 2 ^ 64.
pub record Token (F : Floats) : Type 0 where
  pub type : TokenType
  pub text : Option Str
  pub int_val : ℕ
  pub long_val : ℕ
  pub double_val : F.Number
  pub line : ℕ
  pub col : ℕ
  pub length : ℕ
  pub has_space_before : Bool

pub data ScopeStyle : Type 0 where
  scope_brackets scope_indentation : ScopeStyle

pub data CommentStyle : Type 0 where
  comment_slash comment_hash : CommentStyle

pub record LexerSettings : Type 0 where
  pub comment_style : CommentStyle
  pub scope_style : ScopeStyle
  pub spaces_per_indent : ℕ
  pub require_semicolons : Bool
  pub double_quote_as_string : Bool
  pub import_require_double_quotes : Bool
  pub warning_indent_deep : ℕ

-- What `report_error` and `report_warning` are called with: the message, and the line and column.
pub data Message : Type 0 where
  unclosed_block_comment unclosed_character_literal : Message
  indentation_too_deep too_many_pending_tokens : Message
  indentation_more_than : ℕ → Message

pub record Report : Type 0 where
  pub message : Message
  pub line : ℕ
  pub col : ℕ
