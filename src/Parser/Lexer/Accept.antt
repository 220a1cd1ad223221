-- ===== src/Parser/Lexer/Accept.antt =====
-- parser/lexer.go: `emit` and the functions `accept…`. Each says whether it found its token.
use c2g.Common.{
  ℕ, zero, suc, Bool, true, false, not, ◌&&◌, ◌||◌, [], ◌∷◌, Bytes, codes, none, some, length, leb,
  ◌==◌, if◌then◌else◌, ok, err,
}
use c2g.Parser.Ring.{push}
use c2g.Parser.Lexer.Blank.{accept_ws}
use c2g.Parser.Lexer.{
  TokenType, ident, string, number, extension, curly_open, curly_close, semi, keyword, parse_eof,
  parse_err, Token, panic, forever, M, ◌>>=◌, return, is_space, has_prefix, drop_prefix, token_text,
}

-- `pushToken`
unfoldable pub push_token : Token → M (Unit {0})
unfolding push
push_token t l = elim (push t l.ring) [
  | none ↦ err panic
  | some ring ↦ ok (tt, record l { ring = ring })
]

-- `emit`
unfoldable pub emit : TokenType → M (Unit {0})
unfolding push_token token_text accept_ws
emit t l =
    (push_token (record { typ = t; val = token_text l }) >>= λ _ l'.
    accept_ws (record l' { start = l'.rest }))
      l

-- Move `l.pos` to where `rest` is left.
abbrev pub move_to : Bytes → M (Unit {0})
move_to rest l = ok (tt, record l { rest = rest })

-- Found at `rest`: emit.
abbrev pub found : TokenType → Bytes → M Bool
found t rest = move_to rest >>= λ _. emit t >>= λ _. return true

-- The case of `acceptToken` for a fixed text.
unfoldable pub accept_text : TokenType → Bytes → M Bool
unfolding emit
accept_text t text l =
    if has_prefix text l.rest then found t (drop_prefix text l.rest) l else ok (false, l)

-- `unicode.IsDigit` and `unicode.IsLetter` on ASCII
abbrev pub is_digit : ℕ → Bool
is_digit c = leb b'0' c && leb c b'9'

abbrev pub is_letter : ℕ → Bool
is_letter c = (leb b'a' c && leb c b'z') || (leb b'A' c && leb c b'Z')

abbrev pub is_alpha_numeric : ℕ → Bool
is_alpha_numeric c = is_digit c || (is_letter c || (c == b'-' || c == b'_'))

abbrev pub is_ident : ℕ → Bool
is_ident c = is_alpha_numeric c || (c == b':' || c == b'.')

-- `isPrefixedIdent`: one colon.
unfoldable pub count_colons : Bytes → ℕ
count_colons [] = 0
count_colons (c ∷ s) = if c == b':' then suc (count_colons s) else count_colons s

unfoldable pub is_prefixed_ident : Bytes → Bool
unfolding count_colons
is_prefixed_ident s = count_colons s == 1

-- What is left behind the longest run of runes that pass the test.
unfoldable pub after : (ℕ → Bool) → Bytes → Bytes
after test [] = []
after test (c ∷ s) = if test c then after test s else c ∷ s

-- The first rune of the text behind `l.pos` passes; at the end `next` gives the rune 0.
abbrev pub begins : (ℕ → Bool) → Bytes → Bool
begins test [] = false
begins test (c ∷ s) = test c

-- `acceptToks(ttype, isIdent, nil)`
unfoldable pub accept_ident : M Bool
unfolding after emit
accept_ident l =
    if begins is_ident l.rest then found ident (after is_ident l.rest) l else ok (false, l)

-- `acceptToks(ttype, isIdent, isPrefixedIdent)`. Where the test of the text fails, `l.pos` stays
-- behind the run.
unfoldable pub accept_extension : M Bool
unfolding after emit is_prefixed_ident token_text
accept_extension l =
    let l' = record l { rest = after is_ident l.rest } in
    if not (is_prefixed_ident (token_text l'))
    then ok (false, l')
    else if begins is_ident l.rest
    then found extension (after is_ident l.rest) l
    else ok (false, l)

-- The loop of `acceptNumber` and of `acceptInteger` behind its first round.
abbrev number_rest : Bool → ℕ → Bool
number_rest decimal c = is_digit c || (decimal && c == b'.')

abbrev number_first : ℕ → Bool
number_first c = is_digit c || (c == b'-' || c == b'+')

abbrev after_first : (ℕ → Bool) → Bytes → Bytes
after_first test [] = []
after_first test (c ∷ s) = after test s

-- `acceptNumber` for true, `acceptInteger` for false
unfoldable pub accept_digits : Bool → M Bool
unfolding after emit
accept_digits decimal l =
    if begins number_first l.rest
    then found number (after_first (number_rest decimal) l.rest) l
    else ok (false, l)

abbrev pub is_string_delim : ℕ → Bool
is_string_delim c = is_space c || (c == b';' || c == b'{')

-- The loop of `acceptString` for a text with no quotes, behind its first rune. The rune 0 ends it too,
-- and is taken.
unfoldable pub bare_end : Bytes → Bytes
bare_end [] = []
bare_end (c ∷ s) = if c == 0 then s else if is_string_delim c then c ∷ s else bare_end s

-- The same for a text that `quote` opened: whether it is closed, and what is left. The rune 0 ends it
-- unclosed. In double quotes a backslash takes the next rune with it.
unfoldable pub quoted_end : ℕ → Bytes → Bool × Bytes
quoted_end quote [] = (false, [])
quoted_end quote (c ∷ []) =
    if c == 0
    then (false, [])
    else if c == b'\\' && quote == b'"'
    then (false, [])
    else if c == quote
    then (true, [])
    else (false, [])
quoted_end quote (c ∷ d ∷ s) = elim (c == 0) [
  | true ↦ (false, d ∷ s)
  | false ↦ elim (c == b'\\' && quote == b'"') [
    | true ↦ quoted_end quote s
    | false ↦ elim (c == quote) [ true ↦ (true, d ∷ s) | false ↦ quoted_end quote (d ∷ s) ]
  ]
]

-- Behind the closing quote: a plus goes on with another string, by `again`.
unfoldable pub close_quoted : M Bool → Bool × Bytes → M Bool
unfolding accept_text
close_quoted again (false, rest) = move_to rest >>= λ _. return false
close_quoted again (true, rest) = move_to rest >>= λ _. emit string >>= λ _.
    accept_text (keyword (codes "+")) (codes "+") >>= λ plus. if plus then again else return true

-- `acceptString`. A call of its own takes the rest of the text, which is shorter; one more than its
-- length is enough as fuel.
unfoldable pub accept_string_from : ℕ → M Bool
unfolding bare_end quoted_end close_quoted
accept_string_from zero l = err forever
accept_string_from (suc f) l = elim l.rest [
  | [] ↦ found string [] l
  | c ∷ s ↦
      if c == b'"' || c == b'\''
      then close_quoted (accept_string_from f) (quoted_end c s) l
      else found string (bare_end s) l
]

unfoldable pub accept_string : M Bool
unfolding accept_string_from
accept_string l = accept_string_from (suc (length l.rest)) l

-- `acceptToken`
unfoldable pub accept_token : TokenType → M Bool
unfolding accept_text accept_ident accept_extension accept_digits accept_string
accept_token extension = accept_extension
accept_token ident = accept_ident
accept_token string = accept_string
accept_token number = accept_digits true
accept_token curly_open = accept_text curly_open (codes "{")
accept_token curly_close = accept_text curly_close (codes "}")
accept_token semi = accept_text semi (codes ";")
accept_token (keyword k) = accept_text (keyword k) k
accept_token parse_eof = λ l. err panic
accept_token parse_err = λ l. err panic
