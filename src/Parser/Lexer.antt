-- ===== src/Parser/Lexer.antt =====
-- parser/lexer.go: the state of the lexer. The text is ASCII, so that a rune is a byte. A position is
-- kept as what stands behind it: `start` is `l.input[l.start:]` and `rest` is `l.input[l.pos:]`. The
-- field `width` is left out: `backup` always follows a `next`, and the two are one look at `rest`.
pub mod Blank
pub mod Accept
pub mod Begin
pub mod Next
pub mod Reads
pub mod Words
pub mod Keywords
pub mod Shapes
pub mod Pieces
pub mod Statements
pub mod Calls
pub mod Tokens
use c2g.Common.{
  ℕ, zero, suc, ◌+◌, ◌-◌, ◌%◌, Bool, true, false, ◌||◌, List, [], ◌∷◌, ◌++◌, Bytes, codes, Option,
  none, some, length, take, ◌==◌, if◌then◌else◌, Result, ok, err,
}
use c2g.Parser.Ring.{Ring, append_slot}

-- The tokens of parser.y. A keyword is told by its text, the entry of `keywords`.
pub data TokenType : Type 0 where
  parse_eof parse_err ident string number extension curly_open curly_close semi : TokenType
  keyword : Bytes → TokenType

pub record Token : Type 0 where
  pub typ : TokenType
  pub val : Bytes

-- `ring` is `l.tokens` with `l.head` and `l.tail`. `running` says that the state is `lexBegin`, and not nil. An error is its message with the line
-- and the column.
pub record Lexer : Type 0 where
  pub input : Bytes
  pub start : Bytes
  pub rest : Bytes
  pub ring : Ring Token
  pub running : Bool
  pub last_error : Option (Bytes × ℕ × ℕ)

-- An index out of range, and a loop that does not end.
pub data Fault : Type 0 where
  panic forever : Fault

abbrev pub M : Type 0 → Type 0
M A = Lexer → Result Fault (A × Lexer)

infixl 5 ◌>>=◌
abbrev pub ◌>>=◌ : {A B : Type 0} → M A → (A → M B) → M B
◌>>=◌ m f l = elim (m l) [ err e ↦ err e | ok (a, l') ↦ f a l' ]

abbrev pub return : {A : Type 0} → A → M A
return a l = ok (a, l)

-- `unicode.IsSpace`, `unicode.IsDigit` and `unicode.IsLetter` on ASCII
abbrev pub is_space : ℕ → Bool
is_space c = c == b' ' || (c == 9 || (c == 10 || (c == 11 || (c == 12 || c == 13))))

-- `strings.HasPrefix`
abbrev pub has_prefix : Bytes → Bytes → Bool
has_prefix [] s = true
has_prefix (x ∷ p) [] = false
has_prefix (x ∷ p) (y ∷ s) = if x == y then has_prefix p s else false

abbrev pub drop_prefix : Bytes → Bytes → Bytes
drop_prefix [] s = s
drop_prefix (x ∷ p) [] = []
drop_prefix (x ∷ p) (y ∷ s) = drop_prefix p s

-- `l.input[l.start:l.pos]`
unfoldable pub token_text : Lexer → Bytes
token_text l = take (length l.start - length l.rest) l.start

-- The loop of `Position`.
unfoldable pub position_from : ℕ → ℕ → Bytes → ℕ × ℕ
position_from line col [] = (line, col)
position_from line col (c ∷ s) =
    position_from (if c == 10 then line + 1 else line) (if c == 10 then 0 else col + 1) s

-- `Position`
unfoldable pub position : Lexer → ℕ × ℕ
unfolding position_from
position l = position_from 0 0 (take (length l.input - length l.rest) l.input)

-- `error`: the token is appended behind the slots of the ring.
unfoldable pub error : Bytes → M Bool
unfolding position
error msg l =
    let (line, col) = position l in
    ok (
      false,
      record l {
        ring = append_slot (record { typ = parse_err; val = msg }) l.ring;
        last_error = some (msg, line, col);
      },
    )
