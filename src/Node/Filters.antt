-- ===== src/Node/Filters.antt =====
-- node/max_depth.go, node/max_node.go, node/content_param.go, and the constructor of
-- node/with_defaults_param.go: the constraints that the parameters of a request set.
pub mod Laws
pub mod Defaults
mod Tests
use c2g.Common.{
  ℕ, Bool, true, false, not, ◌&&◌, ◌||◌, List, [], ◌∷◌, Bytes, codes, bytes_eq, Option, none, some,
  length, if◌then◌else◌, Result, ok, err, map,
}
use c2g.Common.Int.{ℤ, pos, negsuc, ◌-ℤ◌, leb_ℤ, ltb_ℤ}
use c2g.Node.Path.{NodePath}
use c2g.Node.FieldsMatcher.{FieldRequest}

-- `MaxDepth`, by its field.
abbrev pub MaxDepth : Type 0
MaxDepth = ℤ

-- `MaxDepth.CheckContainerPreConstraints`, which gives no error; a request is the part of a
-- `ChildRequest` that is looked at.
unfoldable pub check_depth : {F : Type 0} → MaxDepth → FieldRequest F → Bool
check_depth max_depth r =
    if r.navigation
    then true
    else (let depth = pos (length r.path) -ℤ pos (length r.base) in
        if leb_ℤ max_depth depth then false else true)

pub record MaxNode : Type 0 where
  pub count : ℤ
  pub max : ℤ

-- `fc.ConflictError`, `fc.NotImplementedError` and `fc.BadRequestError`
pub data FcError : Type 0 where
  conflict not_implemented bad_request : FcError

-- `MaxNode.CheckContainerPreConstraints`: the answer, and the receiver that the caller keeps. The
-- method increments the count of a copy.
unfoldable pub check_node :
    {F : Type 0} → MaxNode → FieldRequest F → (Bool × Option FcError) × MaxNode
check_node self r =
    if r.navigation
    then ((true, none), self)
    else (let count = self.count -ℤ negsuc 0 in
        if ltb_ℤ self.max count then ((false, some conflict), self) else ((true, none), self))

-- The answers to one request after the other.
unfoldable pub check_nodes :
    {F : Type 0} → MaxNode → List (FieldRequest F) → List (Bool × Option FcError)
unfolding check_node
check_nodes self [] = []
check_nodes self (r ∷ rs) = let (answer, self') = check_node self r in answer ∷ check_nodes self' rs

pub data ContentConstraint : Type 0 where
  content_all content_operational content_config : ContentConstraint

-- `NewContentConstraint`
unfoldable pub new_content_constraint : Bytes → ContentConstraint × Option FcError
new_content_constraint expression =
    if bytes_eq expression (codes "config")
    then (content_config, none)
    else if bytes_eq expression (codes "nonconfig")
    then (content_operational, none)
    else if bytes_eq expression (codes "all")
    then (content_all, none)
    else (content_all, some bad_request)

-- `ContentConstraint.CheckContainerPreConstraints` on a request: whether it navigates, and `Config()`
-- of its definition, which is a module where there is none.
unfoldable pub check_container : ContentConstraint → Bool → Option Bool → Bool
check_container content_all navigation config = true
check_container content_operational navigation config = true
check_container content_config navigation config =
    if navigation then true else elim config [ none ↦ true | some is_config ↦ is_config ]

abbrev is_config_constraint : ContentConstraint → Bool
is_config_constraint content_config = true
is_config_constraint _ = false

abbrev is_operational_constraint : ContentConstraint → Bool
is_operational_constraint content_operational = true
is_operational_constraint _ = false

abbrev is_all_constraint : ContentConstraint → Bool
is_all_constraint content_all = true
is_all_constraint _ = false

-- `ContentConstraint.CheckFieldPreConstraints`, on the same parts of a request for a leaf.
unfoldable pub check_field : ContentConstraint → Bool → Bool → Bool
check_field self navigation is_config =
    if navigation || is_all_constraint self
    then true
    else (is_config && is_config_constraint self)
      || (not is_config && is_operational_constraint self)

pub data WithDefaults : Type 0 where
  defaults_all defaults_trim defaults_explicit defaults_all_tagged : WithDefaults

-- `NewWithDefaultsConstraint`
unfoldable pub new_with_defaults : Bytes → WithDefaults × Option FcError
new_with_defaults expression =
    if bytes_eq expression (codes "trim")
    then (defaults_trim, none)
    else if bytes_eq expression (codes "explicit")
    then (defaults_explicit, some not_implemented)
    else if bytes_eq expression (codes "report-all")
    then (defaults_all, none)
    else if bytes_eq expression (codes "report-all-tagged")
    then (defaults_all_tagged, some not_implemented)
    else (defaults_all, some bad_request)
