-- ===== src/Node/Matcher/Match.antt =====
-- node/path_matcher.go: `PathMatches` and `sliceMatches`. `none` is a panic.
pub mod Laws
pub mod Prefix
use c2g.Common.{
  ℕ, zero, suc, ◌-◌, Bool, true, false, List, [], ◌∷◌, Bytes, bytes_eq, Option, none, some, length,
  ◌==◌, if◌then◌else◌,
}
use c2g.Common.Int.{ℤ, pos, ◌-ℤ◌, sub_ℕ}
use c2g.Val.Dyn.{Floats}
use c2g.Val.Value.Enums.{eq_ℤ}
use c2g.Node.Path.{Segment, NodePath, equal_no_key}
use c2g.Node.Matcher.{Slice}
use mathlib.Core.List.{reverse}

-- `p.meta.Ident() != s.ident`, negated: both may be nil.
unfoldable pub same_ident : Option Bytes → Slice → Option Bool
same_ident none s = none
same_ident (some ident) [] = none
same_ident (some ident) (x ∷ s) = some (bytes_eq ident x)

-- `s.parent`
unfoldable pub parent : Slice → Slice
parent [] = []
parent (x ∷ s) = s

-- The end of a round on a segment: what the comparison with the base and then that of the
-- identifiers say, and the rest of the loop.
unfoldable pub settle : Option Bool → Option Bool → Option Bool → Option Bool
settle none same rest = none
settle (some true) same rest = some true
settle (some false) none rest = none
settle (some false) (some false) rest = some false
settle (some false) (some true) rest = rest

-- The loop of `sliceMatches`, on what is left of the slice (the last first), the two indices and
-- what is left of the candidate.
unfoldable pub match_from :
    {F : Type 0} → Floats F → NodePath F → Slice → ℕ → ℤ → NodePath F → Option Bool
unfolding settle same_ident parent
match_from lib base s filter_path_index subpath_index [] =
    if filter_path_index == 0
    then elim (equal_no_key lib [] base) [ none ↦ none | some true ↦ some true | some false ↦ none ]
    else none
match_from lib base s filter_path_index subpath_index (x ∷ p) =
    let here = eq_ℤ subpath_index (pos filter_path_index) in
    settle (if filter_path_index == 0 then equal_no_key lib (x ∷ p) base else some false)
      (if here then same_ident x.meta s else some true)
      (match_from lib base (if here then parent s else s)
        (if here then filter_path_index - 1 else filter_path_index) (subpath_index -ℤ pos 1) p)

-- `sliceMatches`, on a slice that is not empty
unfoldable pub slice_matches :
    {F : Type 0} → Floats F → Slice → NodePath F → NodePath F → Option Bool
unfolding match_from
slice_matches lib slice base candidate =
    match_from lib base (reverse slice) (length slice) (sub_ℕ (length candidate) (length base))
      candidate

-- The loop of `PathMatches`.
unfoldable pub any_matches :
    {F : Type 0} → Floats F → List Slice → NodePath F → NodePath F → Option Bool
any_matches lib [] base candidate = some false
any_matches lib ([] ∷ slices) base candidate = some true
any_matches lib ((x ∷ slice) ∷ slices) base candidate =
    let rest = any_matches lib slices base candidate in
    elim (slice_matches lib (x ∷ slice) base candidate) [
      | none ↦ none
      | some true ↦ some true
      | some false ↦ rest
    ]

-- `PathMatches`: no slices match everything.
unfoldable pub path_matches :
    {F : Type 0} → Floats F → List Slice → NodePath F → NodePath F → Option Bool
unfolding any_matches slice_matches
path_matches lib [] base candidate = some true
path_matches lib (x ∷ slices) base candidate = any_matches lib (x ∷ slices) base candidate
