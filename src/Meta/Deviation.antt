-- ===== src/Meta/Deviation.antt =====
-- meta/resolver.go: deviations and refinements of one definition, with the types of meta/core.go that
-- say what is deviated, and the accessors of meta/core_gen.go that they go through.
pub mod Steps
pub mod Add
pub mod Delete
mod Sorting
mod Tests
use c2g.Common.{
  List, [], ◌∷◌, ◌++◌, Bytes, bytes_eq, Bool, true, false, not, ◌&&◌, Option, none, some, Result,
  ok, err, ◌>>=◌, if◌then◌else◌,
}
use c2g.Common.Int.{ℤ}

-- The interfaces of a definition that deviations go through, `none` where it does not implement one:
-- `HasDetails` (config and mandatory), `HasListDetails` (max-elements and min-elements), `Leafable`
-- (units and default, an empty text and none where they are not set), `HasMusts` (by the expressions)
-- and the field unique of `*List`.
pub record Details : Type 0 where
  pub config : Option Bool
  pub mandatory : Option Bool

pub record ListDetails : Type 0 where
  pub max_elements : Option ℤ
  pub min_elements : Option ℤ

pub record LeafDetails : Type 0 where
  pub units : Bytes
  pub default_val : Option Bytes

pub record Target : Type 0 where
  pub details : Option Details
  pub list_details : Option ListDetails
  pub leaf_details : Option LeafDetails
  pub musts : Option (List Bytes)
  pub unique : Option (List (List Bytes))

pub data Property : Type 0 where
  config mandatory max_elements min_elements units default_val : Property

-- The errors, and the panic on an interface that the target does not implement.
pub data DeviationError : Type 0 where
  already_set not_set : Property → DeviationError
  cannot_delete : Property → DeviationError
  unique_not_found must_not_found panics : DeviationError

-- `AddDeviate`
pub record AddDeviate : Type 0 where
  pub config : Option Bool
  pub mandatory : Option Bool
  pub max_elements : Option ℤ
  pub min_elements : Option ℤ
  pub musts : List Bytes
  pub units : Bytes
  pub default_val : Option Bytes
  pub unique : List (List Bytes)

-- `ReplaceDeviate`, but for its type, which applyDeviation does not look at.
pub record ReplaceDeviate : Type 0 where
  pub config : Option Bool
  pub mandatory : Option Bool
  pub max_elements : Option ℤ
  pub min_elements : Option ℤ
  pub units : Bytes
  pub default_val : Option Bytes

-- `DeleteDeviate`
pub record DeleteDeviate : Type 0 where
  pub units : Bytes
  pub default_val : Option Bytes
  pub unique : List (List Bytes)
  pub musts : List Bytes

-- A step changes the target in place; an error ends the loading of the module.
abbrev pub Step : Type 0
Step = Target → Result DeviationError Target

-- What an interface of the target is used for, a panic where it is not implemented.
abbrev pub through :
    {A : Type 0} → Option A → (A → Result DeviationError Target) → Result DeviationError Target
through none f = err panics
through (some x) f = f x

-- Whether a property is set must be what the kind of the deviation asks for: not for add, set for
-- replace.
pub data Want : Type 0 where
  unset set : Want

abbrev pub guarded : {A B : Type 0} → Want → Property → Option A → B → Result DeviationError B
guarded unset p none x = ok x
guarded unset p (some y) x = err (already_set p)
guarded set p none x = err (not_set p)
guarded set p (some y) x = ok x

-- A text as a property that is set where it is not empty.
abbrev pub text : Bytes → Option Bytes
text [] = none
text (c ∷ s) = some (c ∷ s)

-- The steps of d.Add and d.Replace, each with the property that the deviation gives, if it does.
unfoldable pub set_config : Want → Option Bool → Step
set_config want none t = ok t
set_config want (some c) t =
    through t.details
      λ d. guarded want config d.config (record t { details = some (record d { config = some c }) })

unfoldable pub set_mandatory : Want → Option Bool → Step
set_mandatory want none t = ok t
set_mandatory want (some c) t = through t.details λ d.
    guarded want mandatory d.mandatory
      (record t { details = some (record d { mandatory = some c }) })

unfoldable pub set_max_elements : Want → Option ℤ → Step
set_max_elements want none t = ok t
set_max_elements want (some n) t = through t.list_details λ d.
    guarded want max_elements d.max_elements
      (record t { list_details = some (record d { max_elements = some n }) })

unfoldable pub set_min_elements : Want → Option ℤ → Step
set_min_elements want none t = ok t
set_min_elements want (some n) t = through t.list_details λ d.
    guarded want min_elements d.min_elements
      (record t { list_details = some (record d { min_elements = some n }) })

unfoldable pub set_units : Want → Bytes → Step
set_units want [] t = ok t
set_units want (c ∷ s) t = through t.leaf_details λ d.
    guarded want units (text d.units)
      (record t { leaf_details = some (record d { units = c ∷ s }) })

unfoldable pub set_default : Want → Option Bytes → Step
set_default want none t = ok t
set_default want (some v) t = through t.leaf_details λ d.
    guarded want default_val d.default_val
      (record t { leaf_details = some (record d { default_val = some v }) })

-- `for _, must := range d.Add.musts { target.(HasMusts).addMust(must) }`
unfoldable pub add_musts : List Bytes → Step
add_musts [] t = ok t
add_musts (m ∷ ms) t = through t.musts λ l. add_musts ms (record t { musts = some (l ++ m ∷ []) })

-- `for _, unique := range d.Add.unique { target.(*List).unique = append(target.(*List).unique, unique) }`
unfoldable pub add_unique : List (List Bytes) → Step
add_unique [] t = ok t
add_unique (u ∷ us) t =
    through t.unique λ l. add_unique us (record t { unique = some (l ++ u ∷ []) })

-- The branch of d.Add.
unfoldable pub apply_add : AddDeviate → Step
unfolding set_config set_mandatory set_max_elements set_min_elements add_musts set_units set_default
    add_unique
apply_add d t =
    set_config unset d.config t
    >>= set_mandatory unset d.mandatory
    >>= set_max_elements unset d.max_elements
    >>= set_min_elements unset d.min_elements
    >>= add_musts d.musts
    >>= set_units unset d.units
    >>= set_default unset d.default_val
    >>= add_unique d.unique
    >>= add_musts d.musts

-- The branch of d.Replace.
unfoldable pub apply_replace : ReplaceDeviate → Step
unfolding set_config set_mandatory set_max_elements set_min_elements set_units set_default
apply_replace d t =
    set_config set d.config t
    >>= set_mandatory set d.mandatory
    >>= set_max_elements set d.max_elements
    >>= set_min_elements set d.min_elements
    >>= set_units set d.units
    >>= set_default set d.default_val

abbrev pub same : Option Bytes → Bytes → Bool
same none v = false
same (some w) v = bytes_eq w v

unfoldable pub delete_units : Bytes → Step
delete_units [] t = ok t
delete_units (c ∷ s) t = through t.leaf_details λ d.
    if bytes_eq d.units (c ∷ s)
    then err (cannot_delete units)
    else ok (record t { leaf_details = some (record d { units = [] }) })

unfoldable pub delete_default : Option Bytes → Step
delete_default none t = ok t
delete_default (some v) t = through t.leaf_details λ d.
    if same d.default_val v
    then err (cannot_delete default_val)
    else ok (record t { leaf_details = some (record d { default_val = none }) })

-- `sort.Strings`
abbrev pub Sort : Type 0
Sort = List Bytes → List Bytes

abbrev pub same_length : List Bytes → List Bytes → Bool
same_length [] [] = true
same_length (x ∷ xs) (y ∷ ys) = same_length xs ys
same_length _ _ = false

abbrev pub arrays_eq : List Bytes → List Bytes → Bool
arrays_eq [] [] = true
arrays_eq (x ∷ xs) (y ∷ ys) = bytes_eq x y && arrays_eq xs ys
arrays_eq _ _ = false

-- `isArrayStringEqual`: the result, and the two slices, which it sorts where they are equally long.
unfoldable pub is_array_string_equal :
    Sort → List Bytes → List Bytes → Bool × (List Bytes × List Bytes)
is_array_string_equal sort a b =
    if same_length a b then (arrays_eq (sort a) (sort b), (sort a, sort b)) else (false, (a, b))

-- The loop over the candidates of one unique: whether it was found, and the others.
unfoldable pub other_uniques : Sort → List Bytes → List (List Bytes) → Bool × List (List Bytes)
unfolding is_array_string_equal
other_uniques sort u [] = (false, [])
other_uniques sort u (c ∷ cs) =
    let (eq, (u', c')) = is_array_string_equal sort u c in
    let (found, rest) = other_uniques sort u' cs in if eq then (true, rest) else (found, c' ∷ rest)

unfoldable pub delete_unique : Sort → List (List Bytes) → Step
unfolding other_uniques
delete_unique sort [] t = ok t
delete_unique sort (u ∷ us) t = through t.unique λ l.
    let (found, rest) = other_uniques sort u l in
    if found then delete_unique sort us (record t { unique = some rest }) else err unique_not_found

unfoldable pub other_musts : Bytes → List Bytes → Bool × List Bytes
other_musts m [] = (false, [])
other_musts m (c ∷ cs) =
    let (found, rest) = other_musts m cs in if bytes_eq c m then (true, rest) else (found, c ∷ rest)

unfoldable pub delete_musts : List Bytes → Step
unfolding other_musts
delete_musts [] t = ok t
delete_musts (m ∷ ms) t = through t.musts λ l.
    let (found, rest) = other_musts m l in
    if found then delete_musts ms (record t { musts = some rest }) else err must_not_found

-- The branch of d.Delete.
unfoldable pub apply_delete : Sort → DeleteDeviate → Step
unfolding delete_units delete_default delete_unique delete_musts
apply_delete sort d t =
    delete_units d.units t
    >>= delete_default d.default_val
    >>= delete_unique sort d.unique
    >>= delete_musts d.musts

-- `applyDeviation` behind Find, for a target that is supported.
unfoldable pub apply_deviation :
    Sort → Option AddDeviate → Option ReplaceDeviate → Option DeleteDeviate → Step
unfolding apply_add apply_replace apply_delete
apply_deviation sort add replace del t =
    elim add [ none ↦ ok t | some d ↦ apply_add d t ]
    >>= (λ t. elim replace [ none ↦ ok t | some d ↦ apply_replace d t ])
    >>= (λ t. elim del [ none ↦ ok t | some d ↦ apply_delete sort d t ])
