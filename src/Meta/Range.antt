-- ===== src/Meta/Range.antt =====
-- meta/core.go: Range, the range or length of a type, and its text.
pub mod Bounds
use c2g.Common.{
  ℕ, Bool, true, false, ◌&&◌, List, [], ◌∷◌, ◌++◌, Bytes, codes, bytes_eq, Option, none, some,
  Result, ok, err, ◌==◌, if◌then◌else◌,
}
use Prim.Native.String.{String}
use c2g.Common.Int.{ℤ, pos}
use c2g.Val.Strconv.{parse_int}

-- `Range`, by the fields that its functions set: Min, Max, min, max and notNil.
pub record Range : Type 0 where
  pub min_text : Bytes
  pub max_text : Bytes
  pub min : ℤ
  pub max : ℤ
  pub not_nil : Bool

-- `strings.Split(s, "..")`: the first part and the others.
unfoldable pub split_dots : Bytes → Bytes × List Bytes
split_dots [] = ([], [])
split_dots (c ∷ []) = (c ∷ [], [])
split_dots (c ∷ d ∷ s) =
    let cut = split_dots s in
    let rest = split_dots (d ∷ s) in
    if c == b'.' && d == b'.' then ([], cut.0 ∷ cut.1) else (c ∷ rest.0, rest.1)

-- `strconv.Atoi` of a bound, but for the word that stands for the end of the type.
abbrev pub bound : String → Bytes → Bytes → Result (Unit {0}) ℤ
bound word text number =
    if bytes_eq text (codes word)
    then ok (pos 0)
    else elim (parse_int number) [ none ↦ err tt | some n ↦ ok n ]

-- What is made of the two numbers.
abbrev pub range_with :
    Bytes → Bytes → Result (Unit {0}) ℤ → Result (Unit {0}) ℤ → Result (Unit {0}) Range
range_with lower upper (err e) max = err e
range_with lower upper (ok min) (err e) = err e
range_with lower upper (ok min) (ok max) =
    ok (record { min_text = lower; max_text = upper; min = min; max = max; not_nil = true })

-- `newRange` behind its first line: two segments, or else the first one. The number of the upper bound
-- is read of the first segment in both cases.
unfoldable pub range_of : Bytes → List Bytes → Result (Unit {0}) Range
range_of first (second ∷ []) =
    range_with first second (bound "min" first first) (bound "max" second first)
range_of first _ = range_with [] first (ok (pos 0)) (bound "max" first first)

-- `newRange`
unfoldable pub new_range : Bytes → Result (Unit {0}) Range
unfolding split_dots range_of
new_range encoded = let (first, others) = split_dots encoded in range_of first others

-- `Empty`
unfoldable pub empty : Range → Bool
empty r = if r.not_nil then false else true

-- `String`
unfoldable pub range_text : Range → Bytes
range_text r = r.min_text ++ (codes ".." ++ r.max_text)
