-- ===== src/Parser/Tests.antt =====
-- The lexer on concrete texts.
use c2g.Common.{ℕ, List, [], ◌∷◌, codes, ok, ◌≡◌, refl, none, inr, arith, All}
use c2g.Parser.Ring.{Ring}
use c2g.Parser.Ring.Queue.{Holds}
use c2g.Parser.Ring.Runs.{Call, emitted, asked, Delivers, run-Delivers}
use c2g.Parser.Lexer.{Lexer}
use c2g.Parser.Lexer.Begin.{
  named_blocks, path_blocks, bare_blocks, named_statements, number_statements, bool_statements,
  string_statements,
}
use c2g.Parser.Lexer.Shapes.{block, named, flag, text}
use c2g.Parser.Lexer.Pieces.{Piece, statement, close, PieceIsValid}
use c2g.Parser.Lexer.Tokens.{lex_all, tokens_of, lex_all-print_pieces}
use c2g.Parser.Lexer.Blank.{skip, blank}
use c2g.Parser.Lexer.Blank.Laws.{Gap, space, comment, line, skip-gaps}

abbrev empty_ring : Ring ℕ
empty_ring = record { slots = 0 ∷ 0 ∷ 0 ∷ []; head = 2; tail = 2 }

empty_ring-Holds : Holds empty_ring []
empty_ring-Holds = record {
  head_in = omega arith;
  tail_in = omega arith;
  fits = omega arith;
  leads = ground arith;
  items = tt;
}

abbrev calls : List (Call ℕ)
calls = emitted 7 ∷ emitted 8 ∷ asked ∷ emitted 9 ∷ []

run-Delivers_example : Delivers calls empty_ring (7 ∷ 8 ∷ 9 ∷ [])
run-Delivers_example =
    run-Delivers calls empty_ring [] empty_ring-Holds
      (omega arith, (omega arith, (omega arith, tt)))

abbrev gaps : List Gap
gaps = space 32 ∷ comment (codes " a * b ") ∷ line (codes "c") ∷ []

skip-gaps_example : skip blank (codes " /* a * b *///c\nleaf") ≡ ok (codes "leaf")
skip-gaps_example = skip-gaps gaps (codes "leaf") (ground arith) (ground arith)

-- A comment `/*/` counts as closed.
slash_comment : skip blank (codes "/*/leaf") ≡ ok (codes "leaf")
unfolding skip
slash_comment = refl

-- `leaf y-z { type string; config false; description "a b"; }`, with a comment.
abbrev leaf : List Piece
leaf =
    statement block (codes "leaf") [] (codes "y-z") (space 32 ∷ []) (space 10 ∷ [])
    ∷ statement named (codes "type") (comment (codes "*") ∷ []) (codes "string") [] (space 32 ∷ [])
    ∷ statement flag (codes "config") [] (codes "false") [] []
    ∷ statement text (codes "description") [] (codes "a b") [] (space 32 ∷ [])
    ∷ close []
    ∷ []

leaf-IsValid : All PieceIsValid leaf
unfolding named_blocks path_blocks bare_blocks named_statements number_statements bool_statements
    string_statements
leaf-IsValid = (
  (refl, (ground arith, (ground arith, (tt, (ground arith, ground arith))))),
  (
    (
      ((refl, (refl, (refl, (refl, tt)))), refl),
      (ground arith, (ground arith, (ground arith, (tt, ground arith)))),
    ),
    (
      (
        ((refl, (refl, (refl, (refl, tt)))), ((refl, (refl, (refl, tt))), refl)),
        (ground arith, (inr refl, (tt, (tt, tt)))),
      ),
      (
        (
          ((refl, (refl, (refl, (refl, tt)))), ((refl, (refl, (refl, (refl, tt)))), refl)),
          (ground arith, (ground arith, (tt, (tt, ground arith)))),
        ),
        (tt, tt),
      ),
    ),
  ),
)

lex_all-print_pieces_example :
    (next : Lexer) × (lex_all 14
        (codes " leaf y-z {\ntype /***/string; config false;description \"a b\"; }")
      ≡ ok (tokens_of leaf, next))
    × (next.last_error ≡ none)
lex_all-print_pieces_example =
    lex_all-print_pieces 14 (space 32 ∷ []) leaf (refl, tt) leaf-IsValid (omega arith)
