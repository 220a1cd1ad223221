-- ===== src/Node/Filters/Defaults.antt =====
-- node/with_defaults_param.go: `CheckFieldPostConstraints`, which hides the values that are defaults.
use c2g.Common.{Bool, true, false, ◌||◌, Option, none, some, ok, err, if◌then◌else◌}
use c2g.Val.Dyn.{Dyn, Floats}
use c2g.Val.Value.{Value}
use c2g.Val.Value.Compare.{equal}
use c2g.Node.Values.{LeafType, Outcome, new_value}
use c2g.Node.Filters.{WithDefaults, defaults_all}

abbrev is_all : WithDefaults → Bool
is_all defaults_all = true
is_all _ = false

-- The value that the handle is left with.
unfoldable pub left_of : {F : Type 0} → Option (Value F) → Option Bool → Outcome (Option (Value F))
left_of value none = none
left_of value (some true) = some (ok none)
left_of value (some false) = some (ok value)

-- `CheckFieldPostConstraints`, on whether the request navigates, the type and the default of the leaf,
-- and the value of the handle. It lets every field through, but for an error.
unfoldable pub check_defaults :
    {F : Type 0}
    → Floats F
    → WithDefaults
    → Bool
    → LeafType
    → Option (Dyn F)
    → Option (Value F)
    → Outcome (Option (Value F))
unfolding left_of new_value
check_defaults lib self navigation typ none value = some (ok value)
check_defaults lib self navigation typ (some default) value =
    if navigation || is_all self then some (ok value) else elim (new_value lib typ default) [
      | none ↦ none
      | some (err e) ↦ some (err e)
      | some (ok def) ↦ left_of value (equal lib def value)
    ]
