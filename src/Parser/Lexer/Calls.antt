-- ===== src/Parser/Lexer/Calls.antt =====
-- parser/lexer.go: `nextToken` on a ring with unread tokens, on an empty one, and at the end of the text.
use c2g.Common.{
  ℕ, suc, ◌≡◌, refl, ap, ◌∙◌, Bool, true, false, List, [], ◌∷◌, Bytes, none, length, ok, ◌==◌,
}
use c2g.Parser.Ring.Queue.{Holds-empty}
use c2g.Parser.Lexer.{TokenType, parse_eof, Token, Lexer}
use c2g.Parser.Lexer.Begin.{begin_blocks, lex_from, lex_begin}
use c2g.Parser.Lexer.Next.{eof_token, next_token, next_token_from, tokens_from}
use c2g.Parser.Lexer.Reads.{At, Finds, tok, bind_ok}
use c2g.Parser.Lexer.Statements.{next_token_from-unread}

-- A token that is not the end.
abbrev pub IsProper : Token → Type 0
IsProper t = elim t.typ [ parse_eof ↦ ⊥ | _ ↦ Unit {0} ]

step :
    (n : ℕ) (typ : TokenType) (x : Bytes) (l l' l'' : Lexer) (ts : List Token)
    → IsProper (tok typ x)
    → next_token l ≡ ok (tok typ x, l')
    → tokens_from n l' ≡ ok (ts, l'')
    → tokens_from (suc n) l ≡ ok (tok typ x ∷ ts, l'')
unfolding tokens_from
step n parse_eof x l l' l'' ts h e k = absurd h
step n typ x l l' l'' ts h e k = rw (e, k, tokens_from) refl

pub tokens_from-cons :
    (n : ℕ) (t : Token) (l l' l'' : Lexer) (ts : List Token)
    → IsProper t
    → next_token l ≡ ok (t, l')
    → tokens_from n l' ≡ ok (ts, l'')
    → tokens_from (suc n) l ≡ ok (t ∷ ts, l'')
tokens_from-cons n t l l' l'' ts h e k = step n t.typ t.val l l' l'' ts h e k

lex_begin-eq : (l : Lexer) (c : ℕ) (r : Bytes) → l.rest ≡ c ∷ r → lex_begin l ≡ begin_blocks l
unfolding lex_begin
lex_begin-eq l c r e = ap (λ s. lex_from s l) e

next_token_from-empty :
    (f : ℕ) (l l' : Lexer) (b : Bool)
    → (l.ring.head == l.ring.tail) ≡ true
    → l.running ≡ true
    → lex_begin l ≡ ok (b, l')
    → next_token_from (suc f) l ≡ next_token_from f (record l' { running = b })
unfolding next_token_from
next_token_from-empty f l l' b e k h =
    simp (e, k, next_token_from)
      (bind_ok lex_begin (λ running l''. next_token_from f (record l'' { running = running })) l l'
        b h)

next_token_from-end :
    (f : ℕ) (l : Lexer)
    → (l.ring.head == l.ring.tail) ≡ true
    → l.running ≡ false
    → next_token_from (suc f) l ≡ ok (eof_token, l)
unfolding next_token_from
next_token_from-end f l e k = simp (e, k, next_token_from) refl

pub next_token-eq : (l : Lexer) → next_token l ≡ next_token_from (suc (suc (length l.rest))) l
unfolding next_token
next_token-eq l = refl

-- On an empty ring `nextToken` calls `lexBegin` once.
pub next_token-reads :
    (l : Lexer) (c : ℕ) (r s : Bytes) (t : Token) (ts : List Token)
    → At l [] (c ∷ r)
    → Finds begin_blocks l (t ∷ ts) s
    → (next : Lexer) × (next_token l ≡ ok (t, next)) × At next ts s
next_token-reads l c r s t ts at f =
    let (next, e, at') =
      next_token_from-unread (length l.rest) (record f.next { running = true }) t ts s
        (record {
          start_is = f.at.start_is;
          rest_is = f.at.rest_is;
          holds = f.at.holds;
          size = f.at.size;
          is_running = refl;
          no_error = f.at.no_error;
        }) in
    (
      next,
      next_token-eq l
          ∙ next_token_from-empty (suc (length l.rest)) l f.next true
              (Holds-empty l.ring [] at.holds) at.is_running
              (lex_begin-eq l c r at.rest_is ∙ f.returns)
          ∙ e,
      at',
    )

lex_begin-end : (l : Lexer) → l.rest ≡ [] → lex_begin l ≡ ok (false, l)
unfolding lex_begin
lex_begin-end l e = ap (λ s. lex_from s l) e

-- At the end of the text, `nextToken` says so.
pub tokens_from-end :
    (n : ℕ) (l : Lexer)
    → At l [] []
    → (next : Lexer) × (tokens_from (suc n) l ≡ ok ([], next)) × (next.last_error ≡ none)
unfolding tokens_from
tokens_from-end n l at =
    let empty = Holds-empty l.ring [] at.holds in
    let e : next_token l ≡ ok (eof_token, record l { running = false }) =
      next_token-eq l
      ∙ next_token_from-empty (suc (length l.rest)) l l false empty at.is_running
          (lex_begin-end l at.rest_is)
      ∙ next_token_from-end (length l.rest) (record l { running = false }) empty refl in
    (record l { running = false }, rw (e, tokens_from) refl, at.no_error)
