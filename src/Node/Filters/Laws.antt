-- ===== src/Node/Filters/Laws.antt =====
-- node/max_depth.go, node/max_node.go and node/content_param.go: which parts of the data the filters
-- let through.
use c2g.Common.{
  ℕ, ◌<◌, ◌≡◌, ◌↔◌, refl, ap, Bool, true, false, not, List, [], ◌∷◌, ◌++◌, none, some, length,
  length-append, arith, map,
}
use c2g.Common.Int.{pos, negsuc, ◌-ℤ◌, ltb_ℤ, ◌<ℤ◌}
use c2g.Node.Path.{NodePath}
use c2g.Node.FieldsMatcher.{FieldRequest}
use c2g.Node.Filters.{
  check_depth, MaxNode, check_nodes, check_node, ContentConstraint, content_all,
  content_operational, content_config, check_container, check_field,
}

-- A request that does not navigate, for what lies `steps` below its base.
abbrev pub below : {F : Type 0} → NodePath F → NodePath F → FieldRequest F
below steps base = record { navigation = false; base = base; path = steps ++ base }

-- A limit of `n` lets through what lies less than `n` steps below the base of the request.
pub check_depth-below :
    {F : Type 0} (n : ℕ) (steps base : NodePath F)
    → (check_depth (pos n) (below steps base) ≡ true) ↔ (length steps < n)
unfolding check_depth
check_depth-below n steps base =
    let e = length-append steps base in (λ h. ground (arith, e), λ h. ground (arith, e))

check_node-passes :
    {F : Type 0} (self : MaxNode) (r : FieldRequest F)
    → self.count <ℤ self.max
    → check_node self r ≡ ((true, none), self)
unfolding check_node
check_node-passes self r h = by_navigation r.navigation refl
  where
    by_navigation : (b : Bool) → r.navigation ≡ b → check_node self r ≡ ((true, none), self)
    by_navigation true q = rw (q, check_node) refl
    by_navigation false q =
        let within : ltb_ℤ self.max (self.count -ℤ negsuc 0) ≡ false =
          (let c = self.count in let m = self.max in ground arith) in
        rw (q, check_node, within) refl

-- The limit on the number of containers never adds up: with a limit of 1 or more, any number of
-- requests passes.
pub check_nodes-pass :
    {F : Type 0} (self : MaxNode) (rs : List (FieldRequest F))
    → self.count <ℤ self.max
    → check_nodes self rs ≡ map (λ r. (true, none)) rs
unfolding check_nodes check_node
check_nodes-pass self [] h = refl
check_nodes-pass self (r ∷ rs) h =
    rw (check_node-passes self r h) (ap ((true, none) ∷◌) (check_nodes-pass self rs h))

-- Of the fields of a request that does not navigate, `config` and `nonconfig` let each through in
-- exactly one, and `all` lets through each.
pub check_field-partition :
    (is_config : Bool)
    → (check_field content_config false is_config
        ≡ not (check_field content_operational false is_config))
      × (check_field content_all false is_config ≡ true)
unfolding check_field
check_field-partition true = (refl, refl)
check_field-partition false = (refl, refl)

-- Where a field passes, so does the container it stands in, provided that no field is configuration
-- in a container that is not.
pub check_container-field :
    (self : ContentConstraint) (navigation is_config container_config : Bool)
    → (is_config ≡ true → container_config ≡ true)
    → check_field self navigation is_config ≡ true
    → check_container self navigation (some container_config) ≡ true
unfolding check_container check_field
check_container-field content_all navigation is_config container_config h k = refl
check_container-field content_operational navigation is_config container_config h k = refl
check_container-field content_config navigation is_config container_config h k = ground arith
