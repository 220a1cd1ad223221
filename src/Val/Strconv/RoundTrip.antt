-- ===== src/Val/Strconv/RoundTrip.antt =====
-- Reading back what was printed.
use c2g.Common.{
  ℕ, zero, suc, ◌*◌, ◌+◌, ◌/◌, ◌%◌, ◌^◌, ◌<◌, ◌≡◌, refl, ◌∙◌, [], ◌∷◌, none, some, Bytes, ltb,
  if◌then◌else◌, arith, Bool-cases, inl, inr, true,
}
use c2g.Common.Int.{ℤ, pos, negsuc, IsSigned}
use c2g.Val.Strconv.{
  is_digit, digits_onto, parse_digits, parse_int, format_onto, format_uint, format_int,
}

digits_onto_digit :
    (acc d : ℕ) (rest : Bytes)
    → d < 10
    → digits_onto acc ((b'0' + d) ∷ rest) ≡ digits_onto (acc * 10 + d) rest
unfolding digits_onto
digits_onto_digit acc d rest h = ground arith

-- The digits of `n` leave the accumulator at `n`.
digits_onto-format_onto :
    (f n : ℕ) (rest : Bytes) → n < f → digits_onto 0 (format_onto f n rest) ≡ digits_onto n rest
unfolding format_onto
digits_onto-format_onto zero n rest h = absurd (omega arith)
digits_onto-format_onto (suc f) n rest h = elim (Bool-cases (ltb n 10)) [
  | inl small ↦ rw small (ground (arith, digits_onto_digit 0 (n % 10) rest))
  | inr big ↦ rw big (
      digits_onto-format_onto f (n / 10) ((b'0' + n % 10) ∷ rest) (ground arith)
      ∙ ground (arith, digits_onto_digit (n / 10) (n % 10) rest))
]

-- What is printed begins with a digit.
abbrev LeadsDigit : Bytes → Type 0
LeadsDigit [] = ⊥
LeadsDigit (c ∷ s) = is_digit c ≡ true

format_onto-LeadsDigit : (f n : ℕ) (rest : Bytes) → n < f → LeadsDigit (format_onto f n rest)
unfolding format_onto
format_onto-LeadsDigit zero n rest h = absurd (omega arith)
format_onto-LeadsDigit (suc f) n rest h = elim (Bool-cases (ltb n 10)) [
  | inl small ↦ rw small (ground arith)
  | inr big ↦ rw big (format_onto-LeadsDigit f (n / 10) ((b'0' + n % 10) ∷ rest) (ground arith))
]

parse_digits_of_LeadsDigit : (s : Bytes) → LeadsDigit s → parse_digits s ≡ digits_onto 0 s
unfolding parse_digits
parse_digits_of_LeadsDigit [] h = absurd h
parse_digits_of_LeadsDigit (c ∷ s) h = refl

pub parse_digits-format_uint : (n : ℕ) → parse_digits (format_uint n) ≡ some n
unfolding format_uint digits_onto
parse_digits-format_uint n =
    parse_digits_of_LeadsDigit _ (format_onto-LeadsDigit (suc n) n [] (omega arith))
    ∙ digits_onto-format_onto (suc n) n [] (omega arith)

-- A leading digit is no sign.
parse_int_of_LeadsDigit :
    (s : Bytes) (n : ℕ)
    → LeadsDigit s
    → parse_digits s ≡ some n
    → parse_int s ≡ (if ltb n (2 ^ 63) then some (pos n) else none)
unfolding parse_int
parse_int_of_LeadsDigit [] n h e = absurd h
parse_int_of_LeadsDigit (c ∷ s) n h e = ground arith

pub parse_int-format_uint :
    (n : ℕ) → parse_int (format_uint n) ≡ (if ltb n (2 ^ 63) then some (pos n) else none)
unfolding format_uint
parse_int-format_uint n =
    parse_int_of_LeadsDigit _ n (format_onto-LeadsDigit (suc n) n [] (omega arith))
      (parse_digits-format_uint n)

-- `ParseInt` reads back every `int64` that `FormatInt` prints.
pub parse_int-format_int : (z : ℤ) → IsSigned (2 ^ 63) z → parse_int (format_int z) ≡ some z
unfolding format_int
parse_int-format_int (pos n) h = ground (arith, parse_int-format_uint n)
parse_int-format_int (negsuc n) h =
    unfold parse_int in ground (arith, parse_digits-format_uint (suc n))
