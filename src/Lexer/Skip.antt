-- ===== src/Lexer/Skip.antt =====
-- src/lexer/lexer.c: `skip_whitespace_and_comments`.
pub mod Blanks
use alkyl.Prelude.{
  ℕ, [], ◌∷◌, Bool, true, false, ◌&&◌, Option, none, some, Str, ◌==◌, if◌then◌else◌,
}
use alkyl.Lexer.Token.{CommentStyle, comment_slash, comment_hash}
use alkyl.Lexer.Bytes.{is_space, peeks}

-- Where in its loops the function is: `block_opening` has read the `/` of a block comment,
-- and `block_closing` the `*` of its end.
pub data SkipMode : Type 0 where
  in_code in_line block_opening in_block block_closing : SkipMode

unfoldable pub opens_line : CommentStyle → ℕ → Str → Bool
opens_line comment_slash c rest = c == b'/' && peeks b'/' rest
opens_line comment_hash c rest = c == b'#'

-- The place after a byte, with the text behind it; `none` when the byte is not skipped.
unfoldable pub skip_step : CommentStyle → SkipMode → ℕ → Str → Option SkipMode
unfolding opens_line
skip_step style in_code c rest =
    if is_space c
    then some in_code
    else if opens_line style c rest
    then some in_line
    else if c == b'/' && peeks b'*' rest
    then some block_opening
    else none
skip_step style in_line c rest = if c == b'\n' then some in_code else some in_line
skip_step style block_opening c rest = some in_block
skip_step style in_block c rest =
    if c == b'*' && peeks b'/' rest then some block_closing else some in_block
skip_step style block_closing c rest = some in_code

-- Whether the end of the text is an error there.
unfoldable pub is_unclosed : SkipMode → Bool
is_unclosed in_block = true
is_unclosed _ = false

-- The text that is left, and whether an unclosed block comment is reported.
unfoldable pub skip : CommentStyle → SkipMode → Str → Str × Bool
unfolding skip_step is_unclosed
skip style mode [] = ([], is_unclosed mode)
skip style mode (c ∷ rest) = elim (skip_step style mode c rest) [
  | none ↦ (c ∷ rest, false)
  | some next ↦ skip style next rest
]

unfoldable pub skip_whitespace_and_comments : CommentStyle → Str → Str × Bool
unfolding skip
skip_whitespace_and_comments style text = skip style in_code text
