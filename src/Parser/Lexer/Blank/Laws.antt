-- ===== src/Parser/Lexer/Blank/Laws.antt =====
-- parser/lexer.go: what `acceptWS` passes over, and where it does not return.
use c2g.Common.{
  ℕ, ◌≡◌, refl, true, false, ◌&&◌, ◌||◌, List, [], ◌∷◌, ◌++◌, Bytes, codes, ◌==◌, ok, err, arith,
  All,
}
use c2g.Parser.Lexer.{panic, forever, is_space}
use c2g.Parser.Lexer.Blank.{blank, block, inline, skip}

-- A blank, a comment between `/*` and `*/`, or one from `//` to the end of the line.
pub data Gap : Type 0 where
  space : ℕ → Gap
  comment : Bytes → Gap
  line : Bytes → Gap

-- The text in front of `tail`.
abbrev pub print_gap : Gap → Bytes → Bytes
print_gap (space c) tail = c ∷ tail
print_gap (comment s) tail = b'/' ∷ b'*' ∷ (s ++ b'*' ∷ b'/' ∷ tail)
print_gap (line s) tail = b'/' ∷ b'/' ∷ (s ++ 10 ∷ tail)

abbrev pub print_gaps : List Gap → Bytes → Bytes
print_gaps [] tail = tail
print_gaps (g ∷ gs) tail = print_gap g (print_gaps gs tail)

-- Behind `c`, the text holds no `*/`.
abbrev pub IsUnclosed : ℕ → Bytes → Type 0
IsUnclosed c [] = Unit
IsUnclosed c (d ∷ s) = ((c == b'*' && d == b'/') ≡ false) × IsUnclosed d s

abbrev pub OnOneLine : Bytes → Type 0
OnOneLine s = All (λ c. (c == 10) ≡ false) s

abbrev pub GapIsValid : Gap → Type 0
GapIsValid (space c) = is_space c ≡ true
GapIsValid (comment s) = IsUnclosed b'*' s
GapIsValid (line s) = OnOneLine s

-- A text that begins with neither a blank nor a comment.
abbrev pub IsSolid : Bytes → Type 0
IsSolid [] = Unit
IsSolid (c ∷ []) = is_space c ≡ false
IsSolid (c ∷ d ∷ s) = (is_space c ≡ false) × ((c == b'/' && (d == b'*' || d == b'/')) ≡ false)

skip-IsSolid : (s : Bytes) → IsSolid s → skip blank s ≡ ok s
unfolding skip
skip-IsSolid [] h = refl
skip-IsSolid (c ∷ []) h = rw h refl
skip-IsSolid (c ∷ d ∷ s) h = ground arith

skip-space : (c : ℕ) (s : Bytes) → is_space c ≡ true → skip blank (c ∷ s) ≡ skip blank s
unfolding skip
skip-space c [] h = rw h refl
skip-space c (d ∷ s) h = rw (h, skip) refl

skip-block :
    (c : ℕ) (s tail : Bytes)
    → IsUnclosed c s
    → skip block (c ∷ (s ++ b'*' ∷ b'/' ∷ tail)) ≡ skip blank tail
unfolding skip
skip-block c [] tail h = ground arith
skip-block c (d ∷ s) tail h = rw (h.0, skip) (skip-block d s tail h.1)

skip-inline : (s tail : Bytes) → OnOneLine s → skip inline (s ++ 10 ∷ tail) ≡ skip blank tail
unfolding skip
skip-inline [] tail h = refl
skip-inline (c ∷ s) tail h = rw (h.0, skip) (skip-inline s tail h.1)

skip-print_gaps :
    (gs : List Gap) (s : Bytes) → All GapIsValid gs → skip blank (print_gaps gs s) ≡ skip blank s
unfolding skip
skip-print_gaps [] s h = refl
skip-print_gaps (space c ∷ gs) s h =
    rw (skip-space c (print_gaps gs s) h.0) (skip-print_gaps gs s h.1)
skip-print_gaps (comment t ∷ gs) s h =
    rw (skip-block b'*' t (print_gaps gs s) h.0) (skip-print_gaps gs s h.1)
skip-print_gaps (line t ∷ gs) s h =
    rw (skip-inline t (print_gaps gs s) h.0) (skip-print_gaps gs s h.1)

-- `acceptWS` passes over blanks and comments in any mixture, and stops at the first text that begins
-- with neither: block comments that end at the first `*/` behind their `/*` and do not begin with a
-- slash, as `/*/` does, and line comments that a newline ends.
pub skip-gaps :
    (gs : List Gap) (s : Bytes)
    → All GapIsValid gs
    → IsSolid s
    → skip blank (print_gaps gs s) ≡ ok s
skip-gaps gs s h k = rw (skip-print_gaps gs s h) (skip-IsSolid s k)

block-forever : (c : ℕ) (s : Bytes) → IsUnclosed c s → skip block (c ∷ s) ≡ err forever
unfolding skip
block-forever c [] h = refl
block-forever c (d ∷ s) h = rw (h.0, skip) (block-forever d s h.1)

inline-panic : (s : Bytes) → OnOneLine s → skip inline s ≡ err panic
unfolding skip
inline-panic [] h = refl
inline-panic (c ∷ s) h = rw (h.0, skip) (inline-panic s h.1)

-- Behind blanks and comments, a comment that `/*` opens and nothing closes keeps `acceptWS` in its
-- loop for ever.
pub skip-unclosed_comment :
    (gs : List Gap) (s : Bytes)
    → All GapIsValid gs
    → IsUnclosed b'*' s
    → skip blank (print_gaps gs (codes "/*" ++ s)) ≡ err forever
unfolding skip
skip-unclosed_comment gs s h k =
    rw (skip-print_gaps gs (codes "/*" ++ s) h) (block-forever b'*' s k)

-- Behind blanks and comments, a comment that `//` opens on the last line makes `acceptWS` panic.
pub skip-unended_line :
    (gs : List Gap) (s : Bytes)
    → All GapIsValid gs
    → OnOneLine s
    → skip blank (print_gaps gs (codes "//" ++ s)) ≡ err panic
unfolding skip
skip-unended_line gs s h k = rw (skip-print_gaps gs (codes "//" ++ s) h) (inline-panic s k)
