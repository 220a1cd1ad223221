-- ===== src/Parser/Lexer/Next.antt =====
-- parser/lexer.go: `lex` and `nextToken`.
use c2g.Common.{
  ℕ, zero, suc, true, false, List, [], ◌∷◌, Bytes, codes, none, some, length, ◌==◌, Result, ok, err,
}
use c2g.Parser.Ring.{pop}
use c2g.Parser.Lexer.Blank.{accept_ws}
use c2g.Parser.Lexer.Begin.{lex_begin}
use c2g.Parser.Lexer.{parse_eof, Token, Lexer, Fault, panic, forever, M, ◌>>=◌}

abbrev pub no_token : Token
no_token = record { typ = parse_eof; val = [] }

abbrev pub eof_token : Token
eof_token = record { typ = parse_eof; val = codes "EOF" }

abbrev pub slots : ℕ → List Token
slots zero = []
slots (suc n) = no_token ∷ slots n

-- `lexRingBufferSize`
abbrev pub ring_size : ℕ
ring_size = 64

-- `lex`
unfoldable pub lex : Bytes → Result Fault Lexer
unfolding accept_ws
lex input =
    elim (accept_ws (record {
      input = input;
      start = input;
      rest = input;
      ring = record { slots = slots ring_size; head = 0; tail = 0 };
      running = true;
      last_error = none;
    })) [ err e ↦ err e | ok (u, l) ↦ ok l ]

-- `popToken`
unfoldable pub pop_token : M Token
unfolding pop
pop_token l = elim (pop l.ring) [
  | none ↦ err panic
  | some (t, ring) ↦ ok (t, record l { ring = ring })
]

-- `nextToken`, with the token of type parseEof that stands for the end. One round of its loop that
-- goes on takes a rune at least.
unfoldable pub next_token_from : ℕ → M Token
unfolding pop_token lex_begin
next_token_from zero l = err forever
next_token_from (suc f) l = elim (l.ring.head == l.ring.tail) [
  | false ↦ pop_token l
  | true ↦ elim l.running [
    | false ↦ ok (eof_token, l)
    | true ↦ (lex_begin >>= λ running l'. next_token_from f (record l' { running = running })) l
  ]
]

unfoldable pub next_token : M Token
unfolding next_token_from
next_token l = next_token_from (suc (suc (length l.rest))) l

-- The tokens that `n` calls of `nextToken` give, up to the end: what the parser sees through `Lex`.
unfoldable pub tokens_from : ℕ → Lexer → Result Fault (List Token × Lexer)
unfolding next_token
tokens_from zero l = ok ([], l)
tokens_from (suc n) l = elim (next_token l) [
  | err e ↦ err e
  | ok (t, l') ↦ elim t.typ [
    | parse_eof ↦ ok ([], l')
    | _ ↦ elim (tokens_from n l') [ err e ↦ err e | ok (ts, l'') ↦ ok (t ∷ ts, l'') ]
  ]
]
