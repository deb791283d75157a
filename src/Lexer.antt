-- ===== src/Lexer.antt =====
-- src/lexer/lexer.c and include/lexer/lexer.h: the lexer.
pub mod Token
pub mod Bytes
pub mod Skip
pub mod Number
pub mod Keywords
pub mod Text
pub mod Word
pub mod State
pub mod Indent
pub mod Next
pub mod Behind
pub mod Attempts
pub mod Past
pub mod Weight
pub mod Progress
pub mod Kept
pub mod Places
pub mod Room
pub mod Tokens
pub mod Symbol
