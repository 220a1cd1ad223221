-- ===== src/Meta/Deviation/Tests.antt =====
-- Deviations of concrete definitions.
use c2g.Common.{
  ◌≡◌, refl, List, [], ◌∷◌, Bytes, codes, bytes_eq, true, false, none, some, ok, err, ◌++◌,
}
use c2g.Common.Int.{pos}
use c2g.Meta.Deviation.{
  Target, Property, DeviationError, already_set, not_set, cannot_delete, AddDeviate, ReplaceDeviate,
  DeleteDeviate, set_config, set_mandatory, set_max_elements, set_min_elements, set_units,
  set_default, add_musts, add_unique, apply_add, apply_replace, apply_delete, delete_units,
  delete_default, delete_unique, delete_musts, other_uniques, is_array_string_equal, unset, set,
}
use c2g.Meta.Deviation.Steps.{view}
use c2g.Meta.Deviation.Add.{
  AllMet, given_by_add, given_by_replace, with_given, apply_add-adds, apply_replace-sets,
}
use c2g.Meta.Deviation.Delete.{Drops, other_uniques-Drops, apply_add-then_delete}
use c2g.Meta.Deviation.Sorting.{sorted, sorted-IsSort, insert}

-- leaf hits { must a; }, and a list with two uniques.
abbrev hits : Target
hits = record {
  details = some (record { config = none; mandatory = some false });
  list_details = none;
  leaf_details = some (record { units = []; default_val = some (codes "0") });
  musts = some (codes "a" ∷ []);
  unique = none;
}

abbrev users : Target
users = record {
  details = some (record { config = some true; mandatory = none });
  list_details = some (record { max_elements = some (pos 9); min_elements = none });
  leaf_details = none;
  musts = some [];
  unique = some ((codes "b" ∷ codes "a" ∷ []) ∷ (codes "d" ∷ codes "c" ∷ []) ∷ []);
}

abbrev additions : AddDeviate
additions = record {
  config = some false;
  mandatory = none;
  max_elements = none;
  min_elements = none;
  musts = codes "m" ∷ [];
  units = codes "s";
  default_val = none;
  unique = [];
}

abbrev limits : ReplaceDeviate
limits = record {
  config = some false;
  mandatory = none;
  max_elements = some (pos 5);
  min_elements = none;
  units = [];
  default_val = none;
}

abbrev no_units : DeleteDeviate
no_units = record { units = codes "s"; default_val = none; unique = []; musts = [] }

abbrev one_unique : DeleteDeviate
one_unique = record {
  units = [];
  default_val = none;
  unique = (codes "a" ∷ codes "b" ∷ []) ∷ [];
  musts = [];
}

abbrev timed : Target
timed = record {
  details = some (record { config = some false; mandatory = some false });
  list_details = none;
  leaf_details = some (record { units = codes "s"; default_val = some (codes "0") });
  musts = some (codes "a" ∷ codes "m" ∷ codes "m" ∷ []);
  unique = none;
}

add_runs : apply_add additions hits ≡ ok timed
unfolding apply_add set_config set_mandatory set_max_elements set_min_elements add_musts set_units
    set_default add_unique
add_runs = refl

add_again : apply_add additions timed ≡ err (already_set Property.config)
unfolding apply_add set_config
add_again = refl

-- The replacement of a property that is not set, and a panic: a leaf has no limits.
replace_unset : set_config set (some true) hits ≡ err (not_set Property.config)
unfolding set_config
replace_unset = refl

leaf_panics : set_max_elements unset (some (pos 1)) hits ≡ err DeviationError.panics
unfolding set_max_elements
leaf_panics = refl

abbrev limited : Target
limited = record users {
  details = some (record { config = some false; mandatory = none });
  list_details = some (record { max_elements = some (pos 5); min_elements = none });
}

replace_runs : apply_replace limits users ≡ ok limited
unfolding apply_replace set_config set_mandatory set_max_elements set_min_elements set_units
    set_default
replace_runs = refl

-- The unique b a is found as a b, and the other comes out sorted.
delete_runs :
    apply_delete sorted one_unique users
    ≡ ok (record users { unique = some ((codes "c" ∷ codes "d" ∷ []) ∷ []) })
unfolding apply_delete delete_units delete_default delete_unique delete_musts other_uniques
    is_array_string_equal sorted insert bytes_eq
delete_runs = refl

-- Other units than the leaf has delete its units.
delete_other_units :
    delete_units (codes "ms") timed
    ≡ ok (record timed {
      leaf_details = some (record { units = []; default_val = some (codes "0") });
    })
unfolding delete_units bytes_eq
delete_other_units = refl

apply_add-adds_example :
    AllMet unset (given_by_add additions) (view hits)
    × (view timed ≡ record (with_given (given_by_add additions) (view hits)) {
      musts = (view hits).musts ++ additions.musts ++ additions.musts;
      unique = (view hits).unique ++ additions.unique;
    })
apply_add-adds_example = apply_add-adds additions hits timed add_runs

apply_replace-sets_example :
    AllMet set (given_by_replace limits) (view users)
    × (view limited ≡ with_given (given_by_replace limits) (view users))
apply_replace-sets_example = apply_replace-sets limits users limited replace_runs

abbrev uniques : List (List Bytes)
uniques = (codes "b" ∷ codes "a" ∷ []) ∷ (codes "d" ∷ codes "c" ∷ []) ∷ []

other_uniques-Drops_example :
    Drops
      (codes "a" ∷ codes "b" ∷ [])
      uniques
      (other_uniques sorted (codes "a" ∷ codes "b" ∷ []) uniques).0
      (other_uniques sorted (codes "a" ∷ codes "b" ∷ []) uniques).1
other_uniques-Drops_example =
    other_uniques-Drops sorted (codes "a" ∷ codes "b" ∷ []) uniques sorted-IsSort

apply_add-then_delete_example :
    apply_delete sorted no_units timed ≡ err (cannot_delete Property.units)
apply_add-then_delete_example =
    apply_add-then_delete sorted additions no_units hits timed b's' [] add_runs refl refl
