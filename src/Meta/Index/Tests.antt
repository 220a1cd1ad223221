-- ===== src/Meta/Index/Tests.antt =====
-- Containers and their index on concrete definitions.
use c2g.Common.{◌≡◌, refl, List, [], ◌∷◌, codes, bytes_eq, none, some}
use c2g.Meta.Defs.{Def, leaf, choice, nil, more, case_of, no_cases, one_of}
use c2g.Meta.Index.{
  Holder, index_data_definition, index_each, index_cases, index_of, add_data_definition, add_all,
  data_definition, pop_data_definitions,
}
use c2g.Meta.Index.Finds.{empty}
use c2g.Node.Choices.Flatten.{Answer}

-- leaf id; choice via { case tcp { leaf port; choice auth { case token { leaf key } } } }
abbrev auth : Def
auth =
    choice (codes "auth")
      (one_of (case_of (codes "token") (more (leaf (codes "key")) nil)) no_cases)

abbrev via : Def
via =
    choice (codes "via")
      (one_of (case_of (codes "tcp") (more (leaf (codes "port")) (more auth nil))) no_cases)

abbrev server : List Def
server = leaf (codes "id") ∷ via ∷ []

abbrev holder : Holder
holder = record {
  data_defs = server;
  index =
      (codes "auth", auth)
      ∷ (codes "port", leaf (codes "port"))
      ∷ (codes "id", leaf (codes "id"))
      ∷ [];
}

add_runs : add_all server empty ≡ some holder
unfolding add_all add_data_definition index_of index_cases index_each index_data_definition bytes_eq
add_runs = refl

-- A choice in a case of another is indexed itself, and what it holds is not.
nested_choice_indexed : data_definition (codes "auth") holder ≡ some auth
unfolding data_definition bytes_eq
nested_choice_indexed = refl

nested_leaf_missing : data_definition (codes "key") holder ≡ none
unfolding data_definition bytes_eq
nested_leaf_missing = refl

same_identifier_panics : add_all (leaf (codes "port") ∷ via ∷ []) empty ≡ none
unfolding add_all add_data_definition index_of index_cases index_each index_data_definition bytes_eq
same_identifier_panics = refl

popped : pop_data_definitions holder ≡ (server, empty)
unfolding pop_data_definitions
popped = refl

-- leaf id; choice by { case a { leaf port; } case b { leaf path; } }
abbrev by_port_or_path : Def
by_port_or_path = choice (codes "by") (
    one_of (case_of (codes "a") (more (leaf (codes "port")) nil))
      (one_of (case_of (codes "b") (more (leaf (codes "path")) nil)) no_cases))

abbrev flat_server : List Def
flat_server = leaf (codes "id") ∷ by_port_or_path ∷ []

abbrev flat_holder : Holder
flat_holder = record {
  data_defs = flat_server;
  index =
      (codes "path", leaf (codes "path"))
      ∷ (codes "port", leaf (codes "port"))
      ∷ (codes "id", leaf (codes "id"))
      ∷ [];
}

-- Every choice is answered with its case b.
abbrev second_case : Answer
second_case x cs = some (codes "b")
