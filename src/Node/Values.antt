-- ===== src/Node/Values.antt =====
-- node/value.go: the leaf values of Go values, by the type of a leaf, and the texts of keys; with the
-- identities of meta/core.go that they are looked up in.
pub mod Derived
pub mod Formats
pub mod Enums
pub mod Keys
mod Tests
use c2g.Common.{
  ℕ, Bool, true, false, List, [], ◌∷◌, ◌++◌, Bytes, codes, bytes_eq, Option, none, some, length,
  Result, ok, err, if◌then◌else◌, ltb, take,
}
use c2g.Common.Int.{ℤ, pos}
use c2g.Val.Dyn.{
  Dyn, Dyns, nil, int, string, strings, ints, anys, float64, float32, done, more, Floats, ConvError,
}
use c2g.Val.Format.{
  Format, scalar, list_of, fmt_identity_ref, fmt_enum, fmt_union, fmt_int32, fmt_string,
}
use c2g.Val.Value.{Value, Enum, IdentRef, to_string}
use c2g.Val.Value.Enums.{by_id, by_label}
use c2g.Val.Conv.{conv, conv_one_of}
use c2g.Val.Conv.Scalars as Scalars

-- `Identity`, by its fields ident and derived. The identities derived from one form a tree.
mutual
  pub data Identity : Type 0 where
    identity : Bytes → Identities → Identity

  pub data Identities : Type 0 where
    last : Identities
    next : Identity → Identities → Identities

abbrev pub ident : Identity → Bytes
ident (identity x derived) = x

-- `derivedRecursive`, on a map as the list of its writes, the last first.
unfoldable mutual
  pub derived_recursive : Identity → List (Bytes × Identity) → List (Bytes × Identity)
  derived_recursive (identity x derived) all = derived_each derived ((x, identity x derived) ∷ all)

  pub derived_each : Identities → List (Bytes × Identity) → List (Bytes × Identity)
  derived_each last all = all
  derived_each (next y ys) all = derived_each ys (derived_recursive y all)

-- `Derived`
unfoldable pub derived : Identity → List (Bytes × Identity)
unfolding derived_recursive derived_each
derived y = derived_recursive y []

abbrev pub lookup : Bytes → List (Bytes × Identity) → Option Identity
lookup x [] = none
lookup x ((k, y) ∷ all) = if bytes_eq k x then some y else lookup x all

-- The parts of `meta.Type` that are looked at; `union_formats` is `UnionFormats()`.
pub record LeafType : Type 0 where
  pub format : Format
  pub base : Identity
  pub enum : List Enum
  pub union_formats : List Format

pub data ValueError : Type 0 where
  conversion : ConvError → ValueError
  no_identity no_identity_list no_enum no_enum_list : ValueError

-- A result, or `none` for a panic.
abbrev pub Outcome : Type 0 → Type 0
Outcome A = Option (Result ValueError A)

-- One value and those that follow; an error ends the loop.
abbrev pub cons_outcome : {A : Type 0} → Outcome A → Outcome (List A) → Outcome (List A)
cons_outcome none rest = none
cons_outcome (some (err e)) rest = some (err e)
cons_outcome (some (ok x)) none = none
cons_outcome (some (ok x)) (some (err e)) = some (err e)
cons_outcome (some (ok x)) (some (ok xs)) = some (ok (x ∷ xs))

-- `for i := 0; i < len(x); i++ { if l[i], err = f(x[i]); err != nil { return nil, err } }`
abbrev pub each : {A B : Type 0} → (A → Outcome B) → List A → Outcome (List B)
each f [] = some (ok [])
each f (x ∷ xs) = cons_outcome (f x) (each f xs)

abbrev pub empty_enum : Enum
empty_enum = record { id = pos 0; label = [] }

abbrev pub enum_found : Option Enum → Outcome Enum
enum_found none = some (err no_enum)
enum_found (some e) = some (ok e)

-- `if e, err := toEnum(src, v); err != nil { return val.EnumList([]val.Enum{e}), nil }`, or the error
-- at the end of `toEnumList`
abbrev pub inverted : Outcome Enum → Outcome (List Enum)
inverted none = none
inverted (some (err _)) = some (ok (empty_enum ∷ []))
inverted (some (ok e)) = some (err no_enum_list)

abbrev pub ident_found : Identity → Option Identity → Outcome IdentRef
ident_found base none = some (err no_identity)
ident_found base (some ref) = some (ok (record { base = ident base; label = ident ref }))

abbrev pub dyns : {F : Type 0} → Dyns F → List (Dyn F)
dyns done = []
dyns (more x xs) = x ∷ dyns xs

abbrev pub as_value : {F A : Type 0} → (A → Value F) → Outcome A → Outcome (Option (Value F))
as_value c none = none
as_value c (some (err e)) = some (err e)
as_value c (some (ok x)) = some (ok (some (c x)))

abbrev pub converted :
    {F : Type 0} → Result ConvError (Option (Value F)) → Outcome (Option (Value F))
converted (err e) = some (err (conversion e))
converted (ok x) = some (ok x)

abbrev pub value_of_union :
    {F : Type 0} → Result ConvError (Option (Value F) × Format) → Outcome (Option (Value F))
value_of_union (err e) = some (err (conversion e))
value_of_union (ok (x, f)) = some (ok x)

module _ {F : Type 0} (lib : Floats F) where
  -- `fmt.Sprintf("%v", v)`
  unfoldable pub sprint : Dyn F → Bytes
  sprint (float64 x) = lib.print_any (float64 x)
  sprint (float32 x) = lib.print_any (float32 x)
  sprint v = elim (Scalars.to_string lib v) [ err e ↦ [] | ok s ↦ s ]

  -- `toIdentRef`
  unfoldable pub to_ident_ref : Identity → Dyn F → Outcome IdentRef
  unfolding sprint derived
  to_ident_ref base v = ident_found base (lookup (sprint v) (derived base))

  -- `toIdentRefList`
  unfoldable pub to_ident_ref_list : Identity → Dyn F → Outcome (List IdentRef)
  unfolding to_ident_ref
  to_ident_ref_list base (string x) = each (to_ident_ref base) (string x ∷ [])
  to_ident_ref_list base (strings x) = each (λ s. to_ident_ref base (string s)) x
  to_ident_ref_list base v = some (err no_identity_list)

  -- `toEnum`: by its id what converts to an int32, by its label what does not.
  unfoldable pub to_enum : List Enum → Dyn F → Outcome Enum
  to_enum src v = elim (conv lib (scalar fmt_int32) v) [
    | ok (some (Value.num w id)) ↦ enum_found (by_id id src)
    | ok _ ↦ none
    | err _ ↦ elim (conv lib (scalar fmt_string) v) [
      | ok (some (Value.string label)) ↦ enum_found (by_label label src)
      | ok _ ↦ none
      | err _ ↦ some (err no_enum)
    ]
  ]

  -- The default of `toEnumList`.
  unfoldable pub single_enum : List Enum → Dyn F → Outcome (List Enum)
  unfolding to_enum
  single_enum src v = inverted (to_enum src v)

  -- `toEnumList`
  unfoldable pub to_enum_list : List Enum → Dyn F → Outcome (List Enum)
  unfolding to_enum single_enum
  to_enum_list src (strings x) = each (λ s. to_enum src (string s)) x
  to_enum_list src (anys x) = each (to_enum src) (dyns x)
  to_enum_list src (ints int x) = each (λ n. to_enum src (Dyn.int int n)) x
  to_enum_list src v = single_enum src v

  -- The switch of `NewValue`.
  unfoldable pub value_of : Format → LeafType → Dyn F → Outcome (Option (Value F))
  unfolding to_ident_ref to_ident_ref_list to_enum to_enum_list
  value_of (scalar fmt_identity_ref) typ v = as_value Value.ident_ref (to_ident_ref typ.base v)
  value_of (list_of fmt_identity_ref) typ v =
      as_value Value.ident_ref_list (to_ident_ref_list typ.base v)
  value_of (scalar fmt_enum) typ v = as_value Value.enum (to_enum typ.enum v)
  value_of (list_of fmt_enum) typ v = as_value Value.enum_list (to_enum_list typ.enum v)
  value_of (scalar fmt_union) typ v = value_of_union (conv_one_of lib typ.union_formats v)
  value_of f typ v = converted (conv lib f v)

  -- `NewValue`
  unfoldable pub new_value : LeafType → Dyn F → Outcome (Option (Value F))
  unfolding value_of
  new_value typ nil = some (ok none)
  new_value typ v = value_of typ.format typ v

  -- `NewValuesByString`: what has no text stays nil.
  unfoldable pub new_values_by_string :
      List LeafType → List Bytes → Outcome (List (Option (Value F)))
  unfolding new_value
  new_values_by_string [] objs = some (ok [])
  new_values_by_string (m ∷ ms) [] = cons_outcome (some (ok none)) (new_values_by_string ms [])
  new_values_by_string (m ∷ ms) (o ∷ objs) =
      cons_outcome (new_value m (string o)) (new_values_by_string ms objs)

  -- `NewValues`, which indexes out of range where there are too many values.
  unfoldable pub new_values : List LeafType → List (Dyn F) → Outcome (List (Option (Value F)))
  unfolding new_value
  new_values [] [] = some (ok [])
  new_values [] (o ∷ objs) = none
  new_values (m ∷ ms) [] = cons_outcome (some (ok none)) (new_values ms [])
  new_values (m ∷ ms) (o ∷ objs) = cons_outcome (new_value m o) (new_values ms objs)

  -- The loop of `EncodeKey` behind its first round.
  abbrev pub encode_rest : (List F → Bytes) → List (Value F) → Bytes
  encode_rest print [] = []
  encode_rest print (v ∷ vs) =
      (b',' ∷ to_string lib print v) ++ (to_string lib print v ++ encode_rest print vs)

  -- `EncodeKey`
  unfoldable pub encode_key : (List F → Bytes) → List (Value F) → Bytes
  encode_key print [] = []
  encode_key print (v ∷ vs) = to_string lib print v ++ encode_rest print vs
