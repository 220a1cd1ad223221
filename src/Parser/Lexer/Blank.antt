-- ===== src/Parser/Lexer/Blank.antt =====
-- parser/lexer.go: `acceptWS`, over the text behind `l.pos`.
pub mod Laws
use c2g.Common.{
  ℕ, Bool, true, false, ◌&&◌, List, [], ◌∷◌, Bytes, ◌==◌, if◌then◌else◌, Result, ok, err,
}
use c2g.Parser.Lexer.{Lexer, Fault, panic, forever, M, is_space}

-- What the next round of a loop is in: the outer loop, `/* … */`, or `// …`.
pub data Within : Type 0 where
  blank block inline : Within

-- Both loops in a comment call `next` before they look, so that they look one byte further on. At
-- the end of the text the first looks for ever, and the second indexes out of range.
unfoldable pub skip : Within → Bytes → Result Fault Bytes
skip blank [] = ok []
skip blank (c ∷ []) = if is_space c then ok [] else ok (c ∷ [])
skip blank (c ∷ d ∷ s) = elim (is_space c) [
  | true ↦ skip blank (d ∷ s)
  | false ↦ elim (c == b'/' && d == b'*') [
    | true ↦ skip block (d ∷ s)
    | false ↦ elim (c == b'/' && d == b'/') [ true ↦ skip inline (d ∷ s) | false ↦ ok (c ∷ d ∷ s) ]
  ]
]
skip block (c ∷ d ∷ s) = elim (c == b'*' && d == b'/') [
  | true ↦ skip blank s
  | false ↦ skip block (d ∷ s)
]
skip block _ = err forever
skip inline (c ∷ s) = elim (c == 10) [ true ↦ skip blank s | false ↦ skip inline s ]
skip inline [] = err panic

-- `acceptWS`
unfoldable pub accept_ws : M (Unit {0})
unfolding skip
accept_ws l = elim (skip blank l.rest) [
  | err e ↦ err e
  | ok rest ↦ ok (tt, record l { rest = rest; start = rest })
]
