-- ===== src/Meta/Index.antt =====
-- meta/core_gen.go: the data definitions of a container, and the index by which they are found. The
-- methods are those of Container; the other definitions that hold data have the same.
pub mod Laws
pub mod Finds
pub mod Visited
mod Tests
use c2g.Common.{
  List, [], ◌∷◌, ◌++◌, Bytes, bytes_eq, Bool, true, false, Option, none, some, if◌then◌else◌,
}
use c2g.Meta.Defs.{
  Def, Defs, ChoiceCase, Cases, leaf, container, list, choice, nil, more, case_of, no_cases, one_of,
  ident_of,
}

-- The fields dataDefs and dataDefsIndex; the map is a list with one entry for a key.
pub record Holder : Type 0 where
  pub data_defs : List Def
  pub index : List (Bytes × Def)

abbrev pub find_def : Bytes → List (Bytes × Def) → Option Def
find_def x [] = none
find_def x ((k, d) ∷ l) = if bytes_eq k x then some d else find_def x l

-- `indexDataDefinition`; `none` is its panic on an identifier that is there.
unfoldable pub index_data_definition : Def → Holder → Option Holder
index_data_definition d h = elim (find_def (ident_of d) h.index) [
  | some _ ↦ none
  | none ↦ some (record h { index = (ident_of d, d) ∷ h.index })
]

-- The loop over the definitions of a case, and that over the cases of a choice.
unfoldable pub index_each : Defs → Holder → Option Holder
unfolding index_data_definition
index_each nil h = some h
index_each (more d ds) h = elim (index_data_definition d h) [
  | none ↦ none
  | some h' ↦ index_each ds h'
]

unfoldable pub index_cases : Cases → Holder → Option Holder
unfolding index_each
index_cases no_cases h = some h
index_cases (one_of (case_of x ds) cs) h = elim (index_each ds h) [
  | none ↦ none
  | some h' ↦ index_cases cs h'
]

-- `if c, isChoice := d.(*Choice); isChoice { … } else { … }`
unfoldable pub index_of : Def → Holder → Option Holder
unfolding index_data_definition index_cases
index_of (choice x cs) h = index_cases cs h
index_of d h = index_data_definition d h

-- `addDataDefinition`
unfoldable pub add_data_definition : Def → Holder → Option Holder
unfolding index_of
add_data_definition d h = elim (index_of d h) [
  | none ↦ none
  | some h' ↦ some (record h' { data_defs = h'.data_defs ++ d ∷ [] })
]

-- `popDataDefinitions`
unfoldable pub pop_data_definitions : Holder → List Def × Holder
pop_data_definitions h = (h.data_defs, record { data_defs = []; index = [] })

-- The definitions added one by one, as the resolver does with those of a container.
unfoldable pub add_all : List Def → Holder → Option Holder
unfolding add_data_definition
add_all [] h = some h
add_all (d ∷ ds) h = elim (add_data_definition d h) [ none ↦ none | some h' ↦ add_all ds h' ]

-- `DataDefinition`
unfoldable pub data_definition : Bytes → Holder → Option Def
data_definition x h = find_def x h.index
