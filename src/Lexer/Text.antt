-- ===== src/Lexer/Text.antt =====
-- src/lexer/lexer.c: `lex_char`, `consume_string_content` and `lex_string`; src/common/common.c:
-- `sb_append_escaped`. A `StringBuilder` is the bytes it holds; memory does not run out.
pub mod RoundTrip
use alkyl.Prelude.{
  ℕ, ◌+◌, [], ◌∷◌, Bool, true, false, ◌&&◌, Option, none, some, Str, Run, ok, fault, out_of_bounds,
  ◌==◌, if◌then◌else◌, ◌++◌,
}
use alkyl.Lexer.Token.{
  TokenType, Token, Floats, token_byte_string, token_c_string, token_char_lit, token_string,
}
use alkyl.Lexer.Bytes.{sign_extend, peeks, advance}

-- What a letter behind `\` stands for.
unfoldable pub escaped : ℕ → ℕ
escaped c =
    if c == b'n'
    then b'\n'
    else if c == b't'
    then b'\t'
    else if c == b'r'
    then b'\r'
    else if c == b'0'
    then 0
    else c

pub data StringByte : Type 0 where
  closing escaping plain : StringByte

unfoldable pub string_byte : ℕ → StringByte
string_byte c = if c == b'"' then closing else if c == b'\\' then escaping else plain

-- The loop of `consume_string_content` and the test behind it: the bytes put into the builder,
-- and the text that is left.
unfoldable pub read_string : Str → Str × Str
unfolding string_byte escaped
read_string [] = ([], [])
read_string (c ∷ []) = elim (string_byte c) [ plain ↦ (c ∷ [], []) | _ ↦ ([], []) ]
read_string (c ∷ d ∷ rest) = elim (string_byte c) [
  | closing ↦ ([], d ∷ rest)
  | escaping ↦ let more = read_string rest in (escaped d ∷ more.0, more.1)
  | plain ↦ let more = read_string (d ∷ rest) in (c ∷ more.0, more.1)
]

-- What `arena_strdup` copies: the bytes before the first zero.
unfoldable pub until_zero : Str → Str
until_zero [] = []
until_zero (c ∷ s) = if c == 0 then [] else c ∷ until_zero s

unfoldable pub consume_string_content : Str → Str × Str
unfolding read_string until_zero
consume_string_content text = let s = read_string text in (until_zero s.0, s.1)

unfoldable pub escape : ℕ → Str
escape c =
    if c == b'\n'
    then b'\\' ∷ b'n' ∷ []
    else if c == b'\t'
    then b'\\' ∷ b't' ∷ []
    else if c == b'\r'
    then b'\\' ∷ b'r' ∷ []
    else if c == b'\\'
    then b'\\' ∷ b'\\' ∷ []
    else if c == b'"'
    then b'\\' ∷ b'"' ∷ []
    else c ∷ []

-- What is appended for a string; nothing for NULL.
unfoldable pub sb_append_escaped : Option Str → Str
unfolding escape
sb_append_escaped none = []
sb_append_escaped (some []) = []
sb_append_escaped (some (c ∷ str)) = escape c ++ sb_append_escaped (some str)

module _ {F : Floats} where
  -- At the byte behind the character; the flag says that an unclosed literal is reported.
  unfoldable pub close_char : Token F → ℕ → Str → Run (Token F × Str × Bool)
  close_char t val rest =
      let t = record t {
        type = token_char_lit;
        int_val = sign_extend 32 val;
        long_val = sign_extend 64 val;
      } in
      ok (if peeks b'\'' rest then (t, advance rest, false) else (t, rest, true))

  -- Behind the quote, and behind `\`. At the end of the text, `advance` steps over the terminator
  -- and `peek` then reads the byte behind it.
  unfoldable pub escaped_char : Token F → Str → Run (Token F × Str × Bool)
  unfolding close_char escaped
  escaped_char t [] = fault out_of_bounds
  escaped_char t (c ∷ rest) = close_char t (escaped c) rest

  unfoldable pub quoted_char : Token F → Str → Run (Token F × Str × Bool)
  unfolding close_char escaped_char
  quoted_char t [] = fault out_of_bounds
  quoted_char t (c ∷ rest) = if c == b'\\' then escaped_char t rest else close_char t c rest

  unfoldable pub lex_char : Token F → Str → Option (Run (Token F × Str × Bool))
  unfolding quoted_char
  lex_char t [] = none
  lex_char t (c ∷ rest) = if c == b'\'' then some (quoted_char t rest) else none

  unfoldable pub string_token : Token F → TokenType → Str → Token F × Str
  unfolding consume_string_content
  string_token t type text =
      let content = consume_string_content text in
      (record t { type = type; text = some content.0 }, content.1)

  unfoldable pub lex_string : Bool → Token F → Str → Option (Token F × Str)
  unfolding string_token
  lex_string double_quote_as_string t [] = none
  lex_string double_quote_as_string t (c ∷ rest) =
      if c == b'c' && peeks b'"' rest
      then some (string_token t token_c_string (advance rest))
      else if c == b'b' && peeks b'"' rest
      then some (string_token t token_byte_string (advance rest))
      else if c == b'"'
      then some
          (string_token t (if double_quote_as_string then token_string else token_c_string) rest)
      else none
