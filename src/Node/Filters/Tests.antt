-- ===== src/Node/Filters/Tests.antt =====
-- The filters of a request on concrete requests.
use c2g.Common.{◌≡◌, ◌↔◌, ◌<◌, refl, Bool, true, false, [], ◌∷◌, some, length, codes}
use c2g.Common.Int.{pos}
use c2g.Node.Path.{NodePath}
use c2g.Node.Filters.{check_depth, check_container, check_field, content_config}
use c2g.Node.Filters.Laws.{below, check_depth-below, check_container-field}

abbrev root : NodePath Bool
root = record { meta = some (codes "m"); key = [] } ∷ []

check_depth-below_example : (check_depth (pos 1) (below root root) ≡ true) ↔ (length root < 1)
check_depth-below_example = check_depth-below 1 root root

check_container-field_example : check_container content_config false (some true) ≡ true
unfolding check_field
check_container-field_example = check_container-field content_config false true true (λ e. e) refl
