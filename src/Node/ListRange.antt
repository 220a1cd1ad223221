-- ===== src/Node/ListRange.antt =====
-- node/list_range.go: NewListRange and CheckListPreConstraints; the parts of ListRequest in
-- node/request.go that they use, and the iteration of node/selection.go (`First`, `Next`).
pub mod Parse
pub mod Rows
use c2g.Common.{
  ℕ, zero, suc, ◌^◌, Bool, true, false, not, ◌&&◌, List, [], ◌∷◌, Bytes, Option, none, some, ◌==◌,
  if◌then◌else◌, Result, ok, err,
}
use c2g.Common.Int.{ℤ, pos, negsuc, ◌-ℤ◌, leb_ℤ, wrap_signed}
use c2g.Val.Dyn.{Floats}
use c2g.Val.Strconv.{parse_int}
use c2g.Val.Value.Enums.{eq_ℤ}
use c2g.Node.Path.{NodePath}
use c2g.Node.Matcher.{Slice, parse_path_expression}
use c2g.Node.Matcher.Match.{path_matches}

-- `ListRange`; nothing sets or reads its field CurrentRow.
pub record ListRange : Type 0 where
  pub selector : List Slice
  pub start_row : ℤ
  pub end_row : ℤ

-- What stands before and behind the first `sep`: `strings.IndexRune` and two slices of the text.
unfoldable pub cut : ℕ → Bytes → Option (Bytes × Bytes)
cut sep [] = none
cut sep (c ∷ s) =
    let rest = cut sep s in
    if c == sep
    then some ([], s)
    else elim rest [ none ↦ none | some (before, behind) ↦ some (c ∷ before, behind) ]

-- `strings.Split`: the first part and the others.
unfoldable pub split : ℕ → Bytes → Bytes × List Bytes
split sep [] = ([], [])
split sep (c ∷ s) =
    let (part, parts) = split sep s in if c == sep then ([], part ∷ parts) else (c ∷ part, parts)

-- The row at the end: -1 where none is given.
unfoldable pub end_of : List Bytes → Option ℤ
end_of [] = some (negsuc 0)
end_of ([] ∷ parts) = some (negsuc 0)
end_of ((c ∷ s) ∷ parts) = parse_int (c ∷ s)

-- `NewListRange` behind the selector.
unfoldable pub with_rows : List Slice → Bytes × List Bytes → Result (Unit {0}) ListRange
unfolding end_of
with_rows selector (part, parts) = elim (parse_int part) [
  | none ↦ err tt
  | some start ↦ elim (end_of parts) [
    | none ↦ err tt
    | some end ↦ ok (record { selector = selector; start_row = start; end_row = end })
  ]
]

-- `NewListRange`. The only error is that of the format.
unfoldable pub new_list_range : Bytes → Option (Result (Unit {0}) ListRange)
new_list_range expression = elim (cut b'!' expression) [
  | none ↦ some (err tt)
  | some (before, rows) ↦ elim (parse_path_expression before) [
    | none ↦ none
    | some (selector, rest) ↦ some (with_rows selector (split b'-' rows))
  ]
]

-- `ListRequest`: `navigation` is `Target != nil`, `path` is that of the selection. Row and StartRow
-- are Row64 and StartRow64 as `int`s.
pub record ListRequest (F : Type 0) : Type 0 where
  pub navigation : Bool
  pub base : NodePath F
  pub path : NodePath F
  pub first : Bool
  pub start_row64 : ℤ
  pub row64 : ℤ

-- The answer where the selector matches.
unfoldable pub bound : {F : Type 0} → ListRange → ListRequest F → Bool × ListRequest F
bound self r =
    if r.first
    then (true, record r { start_row64 = self.start_row; row64 = self.start_row })
    else if leb_ℤ self.end_row r.row64 && not (eq_ℤ self.end_row (negsuc 0))
    then (false, r)
    else (true, r)

-- `CheckListPreConstraints`: whether to go on, and the request that it leaves.
unfoldable pub check_list :
    {F : Type 0} → Floats F → ListRange → ListRequest F → Option (Bool × ListRequest F)
unfolding bound
check_list lib self r =
    if r.navigation then some (true, r) else elim (path_matches lib self.selector r.base r.path) [
      | none ↦ none
      | some false ↦ some (true, r)
      | some true ↦ some (bound self r)
    ]

-- What `Next` does to the request: `IncrementRow` on an `int64`.
unfoldable pub next_request : {F : Type 0} → ListRequest F → ListRequest F
next_request r = record r { first = false; row64 = wrap_signed (2 ^ 63) (r.row64 -ℤ negsuc 0) }

-- The rows that at most `n` rounds of the iteration ask the node for, in a list that does not end.
unfoldable pub rows : {F : Type 0} → Floats F → ListRange → ℕ → ListRequest F → Option (List ℤ)
rows lib self zero r = some []
rows lib self (suc n) r = elim (check_list lib self r) [
  | none ↦ none
  | some (false, r') ↦ some []
  | some (true, r') ↦ elim (rows lib self n (next_request r')) [
    | none ↦ none
    | some rest ↦ some (r'.row64 ∷ rest)
  ]
]
