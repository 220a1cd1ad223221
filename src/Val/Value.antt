-- ===== src/Val/Value.antt =====
-- val/types.go: the leaf values, their formats and texts.
pub mod Enums
pub mod Compare
pub mod Equal
pub mod Order
pub mod Items
use c2g.Common.{ℕ, Bool, true, false, List, [], ◌∷◌, ◌++◌, Bytes, codes, map, join}
use c2g.Common.Int.{ℤ}
use c2g.Val.Dyn.{Dyn, Floats}
use c2g.Val.Format.{
  Kind, fmt_bool, fmt_decimal64, fmt_enum, fmt_identity_ref, fmt_int8, fmt_int16, fmt_int32,
  fmt_int64, fmt_string, fmt_uint8, fmt_uint16, fmt_uint32, fmt_uint64, fmt_any, Format, scalar,
  list_of,
}
use c2g.Val.Strconv.{format_int}

-- The integer value types, Int8 to UInt64. Int32 and UInt32 are `int` and `uint`, of 64 bits.
pub data Width : Type 0 where
  int8 int16 int32 int64 uint8 uint16 uint32 uint64 : Width

pub record Enum : Type 0 where
  pub id : ℤ
  pub label : Bytes

pub record IdentRef : Type 0 where
  pub base : Bytes
  pub label : Bytes

pub data Value (F : Type 0) : Type 0 where
  string : Bytes → Value F
  string_list : List Bytes → Value F
  bool : Bool → Value F
  bool_list : List Bool → Value F
  num : Width → ℤ → Value F
  num_list : Width → List ℤ → Value F
  decimal64 : F → Value F
  decimal64_list : List F → Value F
  enum : Enum → Value F
  enum_list : List Enum → Value F
  ident_ref : IdentRef → Value F
  ident_ref_list : List IdentRef → Value F
  any : Dyn F → Value F

unfoldable pub width_kind : Width → Kind
width_kind int8 = fmt_int8
width_kind int16 = fmt_int16
width_kind int32 = fmt_int32
width_kind int64 = fmt_int64
width_kind uint8 = fmt_uint8
width_kind uint16 = fmt_uint16
width_kind uint32 = fmt_uint32
width_kind uint64 = fmt_uint64

-- The methods `Format`.
unfoldable pub format : {F : Type 0} → Value F → Format
unfolding width_kind
format (string x) = scalar fmt_string
format (string_list x) = list_of fmt_string
format (bool x) = scalar fmt_bool
format (bool_list x) = list_of fmt_bool
format (num w x) = scalar (width_kind w)
format (num_list w x) = list_of (width_kind w)
format (decimal64 x) = scalar fmt_decimal64
format (decimal64_list x) = list_of fmt_decimal64
format (enum x) = scalar fmt_enum
format (enum_list x) = list_of fmt_enum
format (ident_ref x) = scalar fmt_identity_ref
format (ident_ref_list x) = list_of fmt_identity_ref
format (any x) = scalar fmt_any

unfoldable pub bool_text : Bool → Bytes
bool_text true = codes "true"
bool_text false = codes "false"

-- A slice under `%v`.
abbrev bracketed : List Bytes → Bytes
bracketed items = codes "[" ++ (join (codes " ") items ++ codes "]")

-- The methods `String`. `print_floats` is `%v` of a `[]float64`.
unfoldable pub to_string : {F : Type 0} → Floats F → (List F → Bytes) → Value F → Bytes
unfolding bool_text
to_string lib print_floats (string x) = x
to_string lib print_floats (string_list x) = bracketed x
to_string lib print_floats (bool x) = bool_text x
to_string lib print_floats (bool_list x) = bracketed (map bool_text x)
to_string lib print_floats (num w x) = format_int x
to_string lib print_floats (num_list w x) = bracketed (map format_int x)
to_string lib print_floats (decimal64 x) = lib.format_f x
to_string lib print_floats (decimal64_list x) = print_floats x
to_string lib print_floats (enum x) = x.label
to_string lib print_floats (enum_list x) = join (codes ",") (map (λ e. e.label) x)
to_string lib print_floats (ident_ref x) = x.label
to_string lib print_floats (ident_ref_list x) = join (codes ",") (map (λ e. e.label) x)
to_string lib print_floats (any x) = lib.print_any x
