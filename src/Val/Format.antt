-- ===== src/Val/Format.antt =====
-- val/format.go: the formats of leaf values, their numbers and their names.
pub mod Laws
use Prim.Native.Nat.{bit_and}
use c2g.Common.{
  ℕ, ◌+◌, ◌-◌, Bool, ◌&&◌, List, [], ◌∷◌, ◌++◌, Option, none, some, Bytes, codes, leb, ◌==◌,
  if◌then◌else◌, bytes_eq,
}

-- The constants FmtBinary to FmtAny, in the order of the source.
pub data Kind : Type 0 where
  fmt_binary fmt_bits fmt_bool fmt_decimal64 fmt_empty fmt_enum fmt_identity_ref : Kind
  fmt_instance_ref fmt_int8 fmt_int16 fmt_int32 fmt_int64 fmt_leaf_ref fmt_string : Kind
  fmt_uint8 fmt_uint16 fmt_uint32 fmt_uint64 fmt_union fmt_any : Kind

-- FmtX and FmtXList.
pub data Format : Type 0 where
  scalar : Kind → Format
  list_of : Kind → Format

-- `iota + 1`
unfoldable pub kind_number : Kind → ℕ
kind_number fmt_binary = 1
kind_number fmt_bits = 2
kind_number fmt_bool = 3
kind_number fmt_decimal64 = 4
kind_number fmt_empty = 5
kind_number fmt_enum = 6
kind_number fmt_identity_ref = 7
kind_number fmt_instance_ref = 8
kind_number fmt_int8 = 9
kind_number fmt_int16 = 10
kind_number fmt_int32 = 11
kind_number fmt_int64 = 12
kind_number fmt_leaf_ref = 13
kind_number fmt_string = 14
kind_number fmt_uint8 = 15
kind_number fmt_uint16 = 16
kind_number fmt_uint32 = 17
kind_number fmt_uint64 = 18
kind_number fmt_union = 19
kind_number fmt_any = 20

-- `iota + 1` and `iota + 1025`
unfoldable pub number : Format → ℕ
unfolding kind_number
number (scalar k) = kind_number k
number (list_of k) = kind_number k + 1024

-- `Format.Single`, on the number: `f & 1023`.
unfoldable pub to_single : ℕ → ℕ
to_single f = bit_and f 1023

-- `Format.IsList`, on the number: `f >= FmtBinaryList && f <= FmtAnyList`.
unfoldable pub is_list : ℕ → Bool
is_list f = leb 1025 f && leb f 1044

-- The map `internalTypes`, as an association list with distinct keys and distinct values.
unfoldable pub internal_types : List (Bytes × Kind)
internal_types =
    (codes "binary", fmt_binary)
    ∷ (codes "bits", fmt_bits)
    ∷ (codes "boolean", fmt_bool)
    ∷ (codes "decimal64", fmt_decimal64)
    ∷ (codes "enumeration", fmt_enum)
    ∷ (codes "identityref", fmt_identity_ref)
    ∷ (codes "instance-identifier", fmt_instance_ref)
    ∷ (codes "int8", fmt_int8)
    ∷ (codes "int16", fmt_int16)
    ∷ (codes "int32", fmt_int32)
    ∷ (codes "int64", fmt_int64)
    ∷ (codes "leafref", fmt_leaf_ref)
    ∷ (codes "string", fmt_string)
    ∷ (codes "uint8", fmt_uint8)
    ∷ (codes "uint16", fmt_uint16)
    ∷ (codes "uint32", fmt_uint32)
    ∷ (codes "uint64", fmt_uint64)
    ∷ (codes "union", fmt_union)
    ∷ (codes "any", fmt_any)
    ∷ []

find_type : Bytes → List (Bytes × Kind) → Option Format
find_type ident [] = none
find_type ident ((name, k) ∷ rest) =
    if bytes_eq name ident then some (scalar k) else find_type ident rest

-- `TypeAsFormat`
unfoldable pub type_as_format : Bytes → Option Format
unfolding find_type internal_types bytes_eq
type_as_format ident = find_type ident internal_types

-- The loop of `Format.String` over the map.
name_of : ℕ → List (Bytes × Kind) → Bytes
name_of f [] = codes "?unknown?"
name_of f ((name, candidate) ∷ rest) =
    if f == kind_number candidate
    then name
    else if f - 1024 == kind_number candidate
    then name ++ codes "-list"
    else name_of f rest

-- `Format.String`
unfoldable pub to_string : Format → Bytes
unfolding name_of internal_types number
to_string f = name_of (number f) internal_types
