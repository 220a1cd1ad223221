-- ===== src/Parser/Lexer/Tokens.antt =====
-- parser/lexer.go: what the parser reads of the text of statements, token by token.
use c2g.Common.{
  ℕ, zero, suc, ◌<◌, ◌≡◌, inl, refl, sym, ap, ◌∙◌, true, List, [], ◌∷◌, ◌++◌, Bytes, none, length,
  arith, Result, ok, err, All,
}
use mathlib.Core.Path.{subst}
use c2g.Parser.Lexer.{Token, Lexer, Fault}
use c2g.Parser.Lexer.Blank.{accept_ws}
use c2g.Parser.Lexer.Blank.Laws.{Gap, GapIsValid, IsSolid, print_gaps, skip-gaps}
use c2g.Parser.Lexer.Begin.{begin_blocks}
use c2g.Parser.Lexer.Next.{slots, ring_size, lex, tokens_from}
use c2g.Parser.Lexer.Reads.{At, Finds}
use c2g.Parser.Lexer.Shapes.{block, path, named, flag, text}
use c2g.Parser.Lexer.Pieces.{
  Piece, statement, close, print_piece, piece_tokens, PieceIsValid, IsName-IsSolid,
}
use c2g.Parser.Lexer.Calls.{
  IsProper, tokens_from-cons, next_token-eq, next_token-reads, tokens_from-end,
}
use c2g.Parser.Lexer.Statements.{piece-Finds, next_token_from-unread}

abbrev pub print_pieces : List Piece → Bytes
print_pieces [] = []
print_pieces (p ∷ ps) = print_piece p (print_pieces ps)

abbrev pub tokens_of : List Piece → List Token
tokens_of [] = []
tokens_of (p ∷ ps) = piece_tokens p ++ tokens_of ps

-- `lex`, and then at most `n` calls of `nextToken`.
unfoldable pub lex_all : ℕ → Bytes → Result Fault (List Token × Lexer)
unfolding lex tokens_from
lex_all n input = elim (lex input) [ err e ↦ err e | ok l ↦ tokens_from n l ]

close-IsSolid : (s : Bytes) → IsSolid (b'}' ∷ s)
close-IsSolid [] = refl
close-IsSolid (c ∷ s) = (refl, refl)

print_pieces-IsSolid : (ps : List Piece) → All PieceIsValid ps → IsSolid (print_pieces ps)
print_pieces-IsSolid [] h = tt
print_pieces-IsSolid (statement shape k g x g' g'' ∷ ps) h = IsName-IsSolid k _ h.0.1.0
print_pieces-IsSolid (close g ∷ ps) h = close-IsSolid (print_gaps g (print_pieces ps))

print_piece-cons :
    (p : Piece) (tail : Bytes)
    → PieceIsValid p
    → (c : ℕ) × (r : Bytes) × (print_piece p tail ≡ c ∷ r)
print_piece-cons (close g) tail h = (b'}', print_gaps g tail, refl)
print_piece-cons (statement shape [] g x g' g'') tail h = absurd h.1.0
print_piece-cons (statement shape (c ∷ k) g x g' g'') tail h = (c, _, refl)

-- The tokens of a piece: the first, and the others.
record Split (p : Piece) : Type 0 where
  first : Token
  others : List Token
  is : piece_tokens p ≡ first ∷ others
  first-IsProper : IsProper first
  others-IsProper : All IsProper others

piece_tokens-Split : (p : Piece) → Split p
piece_tokens-Split (close g) = record {
  first = _;
  others = [];
  is = refl;
  first-IsProper = tt;
  others-IsProper = tt;
}
piece_tokens-Split (statement block k g x g' g'') = record {
  first = _;
  others = _ ∷ _ ∷ [];
  is = refl;
  first-IsProper = tt;
  others-IsProper = (tt, (tt, tt));
}
piece_tokens-Split (statement path k g x g' g'') = record {
  first = _;
  others = _ ∷ _ ∷ [];
  is = refl;
  first-IsProper = tt;
  others-IsProper = (tt, (tt, tt));
}
piece_tokens-Split (statement named k g x g' g'') = record {
  first = _;
  others = _ ∷ _ ∷ [];
  is = refl;
  first-IsProper = tt;
  others-IsProper = (tt, (tt, tt));
}
piece_tokens-Split (statement flag k g x g' g'') = record {
  first = _;
  others = _ ∷ _ ∷ [];
  is = refl;
  first-IsProper = tt;
  others-IsProper = (tt, (tt, tt));
}
piece_tokens-Split (statement text k g x g' g'') = record {
  first = _;
  others = _ ∷ _ ∷ [];
  is = refl;
  first-IsProper = tt;
  others-IsProper = (tt, (tt, tt));
}

-- What is unread, and then what is not lexed yet.
tokens_from-At :
    (n : ℕ) (ts : List Token) (ps : List Piece) (l : Lexer)
    → At l ts (print_pieces ps)
    → All IsProper ts
    → All PieceIsValid ps
    → length (ts ++ tokens_of ps) < n
    → (next : Lexer) × (tokens_from n l ≡ ok (ts ++ tokens_of ps, next)) × (next.last_error ≡ none)
tokens_from-At zero ts ps l at p v n = absurd (omega arith)
tokens_from-At (suc m) [] [] l at p v n = tokens_from-end m l at
tokens_from-At (suc m) (t ∷ ts) ps l at p v n =
    let (l', e, at') = next_token_from-unread (suc (length l.rest)) l t ts _ at in
    let (next, rest, fine) = tokens_from-At m ts ps l' at' p.1 v (omega (arith, n)) in
    (next, tokens_from-cons m t l l' next (ts ++ tokens_of ps) p.0 (next_token-eq l ∙ e) rest, fine)
tokens_from-At (suc m) [] (q ∷ ps) l at p v n =
    let s = piece_tokens-Split q in
    let (c, r, nonempty) = print_piece-cons q (print_pieces ps) v.0 in
    let found = piece-Finds q l (print_pieces ps) v.0 (print_pieces-IsSolid ps v.1) at in
    let len : length ((s.first ∷ s.others) ++ tokens_of ps) < suc m =
      subst (λ us. length (us ++ tokens_of ps) < suc m) s.is n in
    let (l', e, at') =
      next_token-reads l c r (print_pieces ps) s.first s.others (subst (At l []) nonempty at)
        (subst (λ us. Finds begin_blocks l us (print_pieces ps)) s.is found) in
    let (next, rest, fine) =
      tokens_from-At m s.others ps l' at' s.others-IsProper v.1 (omega (arith, len)) in
    (
      next,
      tokens_from-cons m s.first l l' next (s.others ++ tokens_of ps) s.first-IsProper e rest
          ∙ ap (λ us. ok (us ++ tokens_of ps, next)) (sym s.is),
      fine,
    )

lex-At :
    (g : List Gap) (s : Bytes)
    → All GapIsValid g
    → IsSolid s
    → (l : Lexer) × (lex (print_gaps g s) ≡ ok l) × At l [] s
unfolding lex accept_ws
lex-At g s h k =
    let start : Lexer = record {
      input = print_gaps g s;
      start = print_gaps g s;
      rest = print_gaps g s;
      ring = record { slots = slots ring_size; head = 0; tail = 0 };
      running = true;
      last_error = none;
    } in
    (
      record start { start = s; rest = s },
      rw (skip-gaps g s h k, lex, accept_ws) refl,
      record {
        start_is = refl;
        rest_is = refl;
        holds = record {
          head_in = omega arith;
          tail_in = omega arith;
          fits = omega arith;
          leads = inl refl;
          items = tt;
        };
        size = refl;
        is_running = refl;
        no_error = refl;
      },
    )

-- The lexer gives exactly the tokens of the text of statements, however many gaps of blanks and comments
-- stand between them, then the end, and no error. A keyword must be followed by a blank, be one of those
-- of its list, and not begin with one that is tried before it; the texts hold no escapes, quotes or NULs.
pub lex_all-print_pieces :
    (n : ℕ) (g : List Gap) (ps : List Piece)
    → All GapIsValid g
    → All PieceIsValid ps
    → length (tokens_of ps) < n
    → (next : Lexer) × (lex_all n (print_gaps g (print_pieces ps)) ≡ ok (tokens_of ps, next))
      × (next.last_error ≡ none)
unfolding lex_all
lex_all-print_pieces n g ps h v k =
    let (l, lexed, at) = lex-At g (print_pieces ps) h (print_pieces-IsSolid ps v) in
    let (next, e, fine) = tokens_from-At n [] ps l at tt v k in (next, rw (lexed, lex_all) e, fine)
