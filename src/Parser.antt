-- ===== src/Parser.antt =====
-- The package `parser`: the text of YANG modules.
pub mod Ring
pub mod Lexer
mod Tests
