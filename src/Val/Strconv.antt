-- ===== src/Val/Strconv.antt =====
-- The integer half of Go's strconv, as val/conv.go and val/types.go call it: `ParseInt(s, 10, 64)`,
-- `Atoi` (the same function where `int` has 64 bits), `FormatInt`, `FormatUint` and `Itoa`.
pub mod RoundTrip
use c2g.Common.{
  ℕ, zero, suc, ◌*◌, ◌+◌, ◌-◌, ◌/◌, ◌%◌, ◌^◌, Bool, ◌&&◌, List, [], ◌∷◌, ◌++◌, Option, none, some,
  Bytes, ltb, leb, ◌==◌, if◌then◌else◌,
}
use c2g.Common.Int.{ℤ, pos, negsuc}

abbrev pub is_digit : ℕ → Bool
is_digit c = leb b'0' c && leb c b'9'

-- The value of a run of digits behind the value read so far; `none` at any other byte.
unfoldable pub digits_onto : ℕ → Bytes → Option ℕ
digits_onto acc [] = some acc
digits_onto acc (c ∷ s) =
    let rest = digits_onto (acc * 10 + (c - b'0')) s in if is_digit c then rest else none

-- At least one digit.
unfoldable pub parse_digits : Bytes → Option ℕ
unfolding digits_onto
parse_digits [] = none
parse_digits (c ∷ s) = digits_onto 0 (c ∷ s)

-- The bounds of `int64`.
abbrev positive : Option ℕ → Option ℤ
positive none = none
positive (some n) = if ltb n (2 ^ 63) then some (pos n) else none

abbrev negative : Option ℕ → Option ℤ
negative none = none
negative (some zero) = some (pos 0)
negative (some (suc n)) = if ltb n (2 ^ 63) then some (negsuc n) else none

-- An optional sign, then digits; `none` is an error of syntax or of range.
unfoldable pub parse_int : Bytes → Option ℤ
unfolding parse_digits
parse_int [] = none
parse_int (c ∷ s) =
    if c == b'+'
    then positive (parse_digits s)
    else if c == b'-'
    then negative (parse_digits s)
    else positive (parse_digits (c ∷ s))

-- The decimal digits of `n` in front of `rest`. A number below 2 ^ 64 has 20 digits at most; the
-- fuel is the number itself plus one.
unfoldable pub format_onto : ℕ → ℕ → Bytes → Bytes
format_onto zero n rest = rest
format_onto (suc f) n rest =
    let here = (b'0' + n % 10) ∷ rest in
    let more = format_onto f (n / 10) here in if ltb n 10 then here else more

unfoldable pub format_uint : ℕ → Bytes
unfolding format_onto
format_uint n = format_onto (suc n) n []

-- `FormatInt(x, 10)` and `Itoa(x)`
unfoldable pub format_int : ℤ → Bytes
unfolding format_uint
format_int (pos n) = format_uint n
format_int (negsuc n) = b'-' ∷ format_uint (suc n)
