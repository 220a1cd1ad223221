-- ===== src/Node/FieldsMatcher.antt =====
-- node/fields_matcher.go: the filter of the fields of a request, by a path expression.
pub mod Prefix
use c2g.Common.{Bool, true, false, not, Bytes, List, Option, none, some, if◌then◌else◌}
use c2g.Val.Dyn.{Floats}
use c2g.Node.Path.{NodePath}
use c2g.Node.Matcher.{Slice, parse_path_expression}
use c2g.Node.Matcher.Match.{path_matches}

pub record FieldsMatcher : Type 0 where
  pub expression : Bytes
  pub reverse : Bool
  pub selector : List Slice

-- The part of `ChildRequest` and `FieldRequest` that is looked at; `navigation` is `Target != nil`.
pub record FieldRequest (F : Type 0) : Type 0 where
  pub navigation : Bool
  pub base : NodePath F
  pub path : NodePath F

-- `NewFieldsMatcher` for false, `NewExcludeFieldsMatcher` for true. ParsePathExpression gives no error.
unfoldable pub new_matcher : Bool → Bytes → Option FieldsMatcher
new_matcher reverse expression = elim (parse_path_expression expression) [
  | none ↦ none
  | some (slices, rest) ↦
      some (record { expression = expression; reverse = reverse; selector = slices })
]

-- `!=` on booleans
abbrev pub differs : Bool → Bool → Bool
differs a true = not a
differs a false = a

-- `CheckContainerPreConstraints` and `CheckFieldPreConstraints`
unfoldable pub check_fields : {F : Type 0} → Floats F → FieldsMatcher → FieldRequest F → Option Bool
check_fields lib self r =
    if r.navigation then some true else elim (path_matches lib self.selector r.base r.path) [
      | none ↦ none
      | some b ↦ some (differs b self.reverse)
    ]

-- The filter of an expression, on a request.
unfoldable pub filter_fields : {F : Type 0} → Floats F → Bool → Bytes → FieldRequest F → Option Bool
filter_fields lib reverse expression r = elim (new_matcher reverse expression) [
  | none ↦ none
  | some self ↦ check_fields lib self r
]
