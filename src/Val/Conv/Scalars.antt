-- ===== src/Val/Conv/Scalars.antt =====
-- val/conv.go: the conversions of one Go value to one Go value.
use c2g.Common.{
  ◌^◌, Bool, true, false, ◌||◌, Option, none, some, Bytes, codes, bytes_eq, if◌then◌else◌, Result,
  ok, err,
}
use c2g.Common.Int.{ℤ, pos, negsuc, between, wrap_signed, wrap_unsigned}
use c2g.Val.Dyn.{
  int8, uint8, int16, uint16, int64, uint64, uint, Dyn, bool, float64, float32, string, time, other,
  Floats, ConvError, cannot_coerse, bad_number,
}
use c2g.Val.Strconv.{parse_int, format_int}
use Prim.Native.String.{String}

-- maxInt8, minInt8, maxUInt8, maxInt16, minInt16, maxUInt16 and maxUInt32, with the source's values
abbrev pub max_int8 : ℤ
max_int8 = pos 0x8f

abbrev pub min_int8 : ℤ
min_int8 = negsuc 0x8e

abbrev pub max_uint8 : ℤ
max_uint8 = pos 0xff

abbrev pub max_int16 : ℤ
max_int16 = pos 0x8f

abbrev pub min_int16 : ℤ
min_int16 = min_int8

abbrev pub max_uint16 : ℤ
max_uint16 = pos 0xffff

abbrev pub max_uint32 : ℤ
max_uint32 = pos 0xffff_ffff

-- The default branch of toInt8 and its like: `if err == nil && i >= lo && i <= hi`, then the
-- conversion `cast(i)`.
abbrev pub narrow : String → ℤ → ℤ → (ℤ → ℤ) → Result ConvError ℤ → Result ConvError ℤ
narrow target lo hi cast (ok i) =
    if between lo hi i then ok (cast i) else err (cannot_coerse target)
narrow target lo hi cast (err e) = err (cannot_coerse target)

-- `strconv.Atoi(x)`, `strconv.ParseInt(x, 10, 64)`
abbrev pub from_parsed {ℓ} : {A : Type ℓ} → Option A → Result ConvError A
from_parsed none = err bad_number
from_parsed (some n) = ok n

-- `uint64(i), err` behind `strconv.ParseInt`
abbrev pub unsigned_parsed : Option ℤ → Result ConvError ℤ
unsigned_parsed none = err bad_number
unsigned_parsed (some n) = ok (wrap_unsigned (2 ^ 64) n)

-- `reflect.ValueOf(val).Int()` under a recover
abbrev reflected : String → Option ℤ → Result ConvError ℤ
reflected target none = err (cannot_coerse target)
reflected target (some n) = ok n

module _ {F : Type 0} (floats : Floats F) where
  open floats use {truncate, truncate_unsigned, from_int, parse_float, format_rounded, print_any}

  -- `toInt32`. Of the integer types its switch leaves out uint64, on which `Int` of reflect panics.
  unfoldable pub to_int32 : Dyn F → Result ConvError ℤ
  to_int32 (Dyn.int uint64 x) = err (cannot_coerse "int")
  to_int32 (Dyn.int k x) = ok (wrap_signed (2 ^ 63) x)
  to_int32 (string s) = from_parsed (parse_int s)
  to_int32 (float64 x) = ok (truncate x)
  to_int32 (float32 x) = ok (truncate x)
  to_int32 (other n text) = reflected "int" n
  to_int32 v = err (cannot_coerse "int")

  -- `toInt64`
  unfoldable pub to_int64 : Dyn F → Result ConvError ℤ
  to_int64 (Dyn.int k x) = ok (wrap_signed (2 ^ 63) x)
  to_int64 (string s) = from_parsed (parse_int s)
  to_int64 (float64 x) = ok (truncate x)
  to_int64 (float32 x) = ok (truncate x)
  to_int64 (time unix) = ok unix
  to_int64 (other n text) = reflected "int64" n
  to_int64 v = err (cannot_coerse "int64")

  -- `toInt8`
  unfoldable pub to_int8 : Dyn F → Result ConvError ℤ
  to_int8 (Dyn.int uint8 x) = ok (wrap_signed (2 ^ 7) x)
  to_int8 (Dyn.int int8 x) = ok x
  to_int8 v = narrow "int8" min_int8 max_int8 (wrap_signed (2 ^ 7)) (to_int32 v)

  -- `toUInt8`
  unfoldable pub to_uint8 : Dyn F → Result ConvError ℤ
  to_uint8 (Dyn.int int8 x) = ok (wrap_unsigned (2 ^ 8) x)
  to_uint8 (Dyn.int uint8 x) = ok x
  to_uint8 v = narrow "uint8" (pos 0) max_uint8 (wrap_unsigned (2 ^ 8)) (to_int32 v)

  -- `toInt16`
  unfoldable pub to_int16 : Dyn F → Result ConvError ℤ
  to_int16 (Dyn.int int8 x) = ok (wrap_signed (2 ^ 15) x)
  to_int16 (Dyn.int uint8 x) = ok (wrap_signed (2 ^ 15) x)
  to_int16 (Dyn.int uint16 x) = ok (wrap_signed (2 ^ 15) x)
  to_int16 (Dyn.int int16 x) = ok x
  to_int16 v = narrow "int16" min_int16 max_int16 (wrap_signed (2 ^ 15)) (to_int32 v)

  -- `toUInt16`
  unfoldable pub to_uint16 : Dyn F → Result ConvError ℤ
  to_uint16 (Dyn.int int8 x) = ok (wrap_unsigned (2 ^ 16) x)
  to_uint16 (Dyn.int uint8 x) = ok (wrap_unsigned (2 ^ 16) x)
  to_uint16 (Dyn.int int16 x) = ok (wrap_unsigned (2 ^ 16) x)
  to_uint16 (Dyn.int uint16 x) = ok x
  to_uint16 v = narrow "uint16" (pos 0) max_uint16 (wrap_unsigned (2 ^ 16)) (to_int32 v)

  -- `toUInt32`, whose result is a `uint`
  unfoldable pub to_uint32 : Dyn F → Result ConvError ℤ
  to_uint32 (Dyn.int int64 x) =
      narrow "uint32" (pos 0) max_uint32 (wrap_unsigned (2 ^ 64)) (to_int64 (Dyn.int int64 x))
  to_uint32 (Dyn.int uint64 x) =
      narrow "uint32" (pos 0) max_uint32 (wrap_unsigned (2 ^ 64)) (to_int64 (Dyn.int uint64 x))
  to_uint32 (Dyn.int uint x) = ok x
  to_uint32 (Dyn.int k x) = ok (wrap_unsigned (2 ^ 64) x)
  to_uint32 v = narrow "uint32" (pos 0) max_uint32 (wrap_unsigned (2 ^ 64)) (to_int64 v)

  -- `toUInt64`
  unfoldable pub to_uint64 : Dyn F → Result ConvError ℤ
  to_uint64 (Dyn.int uint64 x) = ok x
  to_uint64 (Dyn.int k x) = ok (wrap_unsigned (2 ^ 64) x)
  to_uint64 (string s) = unsigned_parsed (parse_int s)
  to_uint64 (float64 x) = ok (truncate_unsigned x)
  to_uint64 (float32 x) = ok (truncate_unsigned x)
  to_uint64 (time unix) = ok (wrap_unsigned (2 ^ 64) unix)
  to_uint64 v = err (cannot_coerse "uint64")

  -- `toDecimal64`
  unfoldable pub to_decimal64 : Dyn F → Result ConvError F
  to_decimal64 (Dyn.int k x) = ok (from_int x)
  to_decimal64 (float32 x) = ok x
  to_decimal64 (float64 x) = ok x
  to_decimal64 (string s) = from_parsed (parse_float s)
  to_decimal64 v = err (cannot_coerse "float64")

  -- The inner switch of `toBool`.
  unfoldable pub bool_of_string : Bytes → Result ConvError Bool
  bool_of_string x =
      if bytes_eq x (codes "1") || bytes_eq x (codes "true") || bytes_eq x (codes "yes")
      then ok true
      else if bytes_eq x (codes "0") || bytes_eq x (codes "false") || bytes_eq x (codes "np")
      then ok false
      else err (cannot_coerse "boolean value")

  -- `toBool`
  unfoldable pub to_bool : Dyn F → Result ConvError Bool
  unfolding bool_of_string
  to_bool (bool b) = ok b
  to_bool (string s) = bool_of_string s
  to_bool v = err (cannot_coerse "boolean value")

  -- `toString`. `%v` prints a string as it is, an integer in decimal, a boolean as its word.
  unfoldable pub to_string : Dyn F → Result ConvError Bytes
  to_string (float64 x) = ok (format_rounded x)
  to_string (string s) = ok s
  to_string (Dyn.int k x) = ok (format_int x)
  to_string (bool true) = ok (codes "true")
  to_string (bool false) = ok (codes "false")
  to_string v = ok (print_any v)
