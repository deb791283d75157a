-- ===== src/Lexer/State.antt =====
-- src/lexer/lexer.c: `lexer_init`, the state of a lexer, and its lines and columns.
use alkyl.Prelude.{
  ℕ, ◌+◌, ◌-◌, List, [], ◌∷◌, ◌++◌, Bool, true, false, Option, none, some, Str, length, take, drop,
  ◌==◌, if◌then◌else◌,
}
use alkyl.Lexer.Token.{
  Token, Floats, TokenType, LexerSettings, scope_brackets, comment_slash, Message, Report,
  unclosed_block_comment,
}
use alkyl.Lexer.Skip.{skip_whitespace_and_comments}

-- `indent_stack` is `indent_stack[indent_level]` down to `indent_stack[1]`, and `indent_level` its
-- length; `pending_tokens` are the first `pending_count`. `reports` are what has been reported.
pub record Lexer (F : Floats) : Type 0 where
  pub settings : LexerSettings
  pub src : Str
  pub pos : ℕ
  pub line : ℕ
  pub col : ℕ
  pub indent_stack : List ℕ
  pub pending_tokens : List (Token F)
  pub last_calc_pos : ℕ
  pub reports : List Report

abbrev pub default_settings : LexerSettings
default_settings = record {
  scope_style = scope_brackets;
  comment_style = comment_slash;
  spaces_per_indent = 4;
  require_semicolons = true;
  double_quote_as_string = false;
  import_require_double_quotes = true;
  warning_indent_deep = 4;
}

abbrev given_settings : Option LexerSettings → LexerSettings
given_settings none = default_settings
given_settings (some settings) = settings

abbrev pub is_empty {ℓ} : {A : Type ℓ} → List A → Bool
is_empty [] = true
is_empty (x ∷ xs) = false

-- The loop that counts lines and columns, over the bytes that were passed.
unfoldable pub move_over : Str → ℕ × ℕ → ℕ × ℕ
move_over [] p = p
move_over (c ∷ rest) p = move_over rest (if c == b'\n' then (p.0 + 1, 1) else (p.0, p.1 + 1))

module _ {F : Floats} where
  unfoldable pub lexer_init : Str → Option LexerSettings → Lexer F
  lexer_init src settings = record {
    settings = given_settings settings;
    src = src;
    pos = 0;
    line = 1;
    col = 1;
    indent_stack = [];
    pending_tokens = [];
    last_calc_pos = 0;
    reports = [];
  }

  -- The text that is left.
  abbrev pub ahead : Lexer F → Str
  ahead l = drop l.pos l.src

  abbrev pub report_if : Bool → Message → Lexer F → Lexer F
  report_if test message l = record l {
    reports =
        if test
        then l.reports ++ (record { message = message; line = l.line; col = l.col } ∷ [])
        else l.reports;
  }

  abbrev pub report : Message → Lexer F → Lexer F
  report = report_if true

  -- At the place where `rest` is left.
  abbrev pub move_to : Str → Lexer F → Lexer F
  move_to rest l = record l { pos = length l.src - length rest }

  unfoldable pub catch_up : Lexer F → Lexer F
  unfolding move_over
  catch_up l =
      let place =
        move_over (take (l.pos - l.last_calc_pos) (drop l.last_calc_pos l.src)) (l.line, l.col) in
      record l { line = place.0; col = place.1; last_calc_pos = l.pos }

  -- A token without text or values.
  abbrev pub bare_token : TokenType → ℕ → ℕ → Token F
  bare_token type line col = record {
    type = type;
    text = none;
    int_val = 0;
    long_val = 0;
    double_val = F.zero_number;
    line = line;
    col = col;
    length = 0;
    has_space_before = false;
  }

  -- The skipping, with the report that it makes, and the counting.
  unfoldable pub skip_blanks : Lexer F → Lexer F
  unfolding skip_whitespace_and_comments catch_up
  skip_blanks l =
      let skipped = skip_whitespace_and_comments l.settings.comment_style (ahead l) in
      catch_up (report_if skipped.1 unclosed_block_comment (move_to skipped.0 l))
