-- ===== src/Parser/Lexer/Statements.antt =====
-- parser/lexer.go: the tokens that `nextToken` gives of the text of statements.
use c2g.Common.{
  ℕ, suc, ◌≡◌, refl, ap, ◌∙◌, true, false, List, [], ◌∷◌, Bytes, codes, length, arith, ok, ◌==◌,
}
use c2g.Parser.Ring.Queue.{pop-Holds, Holds-empty}
use c2g.Parser.Lexer.{curly_close, keyword, Token, Lexer}
use c2g.Parser.Lexer.Blank.{skip, blank}
use c2g.Parser.Lexer.Blank.Laws.{Gap, IsSolid, print_gaps, skip-gaps}
use c2g.Parser.Lexer.Accept.{accept_token}
use c2g.Parser.Lexer.Begin.{
  named_blocks, path_blocks, bare_blocks, named_statements, number_statements, bool_statements,
  string_statements, limits, begin_other, begin_limits, begin_ordered, begin_strings, begin_bools,
  begin_numbers, begin_status, begin_named, begin_deviates, begin_bare, begin_paths, begin_blocks,
}
use c2g.Parser.Lexer.Next.{pop_token, next_token_from}
use c2g.Parser.Lexer.Reads.{At, Finds, tok, bind_ok}
use c2g.Parser.Lexer.Words.{Finds-of, accept_text-Finds}
use c2g.Parser.Lexer.Keywords.{first_of-none}
use c2g.Parser.Lexer.Shapes.{begin_blocks-Taken}
use c2g.Parser.Lexer.Pieces.{
  Piece, statement, close, print_operand, end_byte, print_piece, piece_tokens, PieceIsValid,
  operand-IsSolid, follow-Finds,
}

begin_blocks-close : (l : Lexer) (s : Bytes) → l.rest ≡ b'}' ∷ s → begin_blocks l ≡ begin_other l
unfolding begin_blocks begin_paths begin_bare begin_deviates begin_named begin_status begin_numbers
    begin_bools begin_strings begin_ordered begin_limits named_blocks path_blocks bare_blocks
    named_statements number_statements bool_statements string_statements limits
begin_blocks-close l s e =
    first_of-none named_blocks _ begin_paths l (rw e refl)
    ∙ first_of-none path_blocks _ begin_bare l (rw e refl)
    ∙ first_of-none bare_blocks _ begin_deviates l (rw e refl)
    ∙ first_of-none (codes "deviate" ∷ []) _ begin_named l (rw e refl)
    ∙ first_of-none named_statements _ begin_status l (rw e refl)
    ∙ first_of-none (codes "status" ∷ []) _ begin_numbers l (rw e refl)
    ∙ first_of-none number_statements _ begin_bools l (rw e refl)
    ∙ first_of-none bool_statements _ begin_strings l (rw e refl)
    ∙ first_of-none string_statements _ begin_ordered l (rw e refl)
    ∙ first_of-none (codes "ordered-by" ∷ []) _ begin_limits l (rw e refl)
    ∙ first_of-none limits _ begin_other l (rw e refl)

begin_other-close :
    (l : Lexer) (s s' : Bytes)
    → At l [] (b'}' ∷ s)
    → skip blank s ≡ ok s'
    → Finds begin_other l (tok curly_close (codes "}") ∷ []) s'
unfolding begin_other accept_token
begin_other-close l s s' at w =
    let f = accept_text-Finds curly_close (codes "}") s s' l [] at w (omega arith) in
    record {
      next = f.next;
      returns = bind_ok (accept_token curly_close) _ l f.next true f.returns;
      at = f.at;
    }

-- `lexBegin` reads one statement, or the end of a block.
pub piece-Finds :
    (p : Piece) (l : Lexer) (tail : Bytes)
    → PieceIsValid p
    → IsSolid tail
    → At l [] (print_piece p tail)
    → Finds begin_blocks l (piece_tokens p) tail
piece-Finds (close g) l tail v h at =
    Finds-of (begin_blocks-close l _ at.rest_is)
      (begin_other-close l _ tail at (skip-gaps g tail v h))
piece-Finds (statement shape k g x g' g'') l tail (is, (name, (operand, (v, (v', v''))))) h at =
    let t = begin_blocks-Taken shape l k _ _ is at (
      skip-gaps (Gap.space b' ' ∷ g)
        (print_operand shape x (print_gaps g' (end_byte shape ∷ print_gaps g'' tail))) (refl, v)
        (operand-IsSolid shape x _ operand)) in
    let f = follow-Finds shape t.next (tok (keyword k) k) x g' g'' tail operand v' v'' h t.at in
    record { next = f.next; returns = t.goes_on ∙ f.returns; at = f.at }

-- `nextToken` gives out the oldest unread token.
pub next_token_from-unread :
    (f : ℕ) (l : Lexer) (t : Token) (ts : List Token) (s : Bytes)
    → At l (t ∷ ts) s
    → (next : Lexer) × (next_token_from (suc f) l ≡ ok (t, next)) × At next ts s
unfolding next_token_from pop_token
next_token_from-unread f l t ts s at =
    let (ring, popped, holds, same) = pop-Holds l.ring t ts at.holds in
    let full : (l.ring.head == l.ring.tail) ≡ false =
      Holds-empty l.ring (t ∷ ts) at.holds ∙ ground arith in
    (
      record l { ring = ring },
      rw (full, popped, next_token_from, pop_token) refl,
      record {
        start_is = at.start_is;
        rest_is = at.rest_is;
        holds = holds;
        size = ap length same ∙ at.size;
        is_running = at.is_running;
        no_error = at.no_error;
      },
    )
