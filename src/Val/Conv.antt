-- ===== src/Val/Conv.antt =====
-- val/conv.go: `Conv` and `ConvOneOf`.
pub mod Scalars
pub mod Slices
pub mod Formats
pub mod Ranges
pub mod RoundTrip
pub mod Elements
pub mod First
pub mod Bounds
use c2g.Common.{ℕ, List, [], ◌∷◌, Option, none, some, Result, ok, err, ◌>>=◌}
use c2g.Val.Conv.Scalars.{
  to_int8, to_uint8, to_int16, to_uint16, to_int32, to_uint32, to_int64, to_uint64, to_decimal64,
  to_bool, to_string,
}
use c2g.Val.Conv.Slices.{
  to_int8_list, to_uint8_list, to_int16_list, to_uint16_list, to_int32_list, to_uint32_list,
  to_int64_list, to_uint64_list, to_decimal64_list, to_bool_list, to_string_list,
}
use c2g.Val.Dyn.{Dyn, nil, Floats, ConvError, no_format}
use c2g.Val.Format.{
  fmt_bool, fmt_decimal64, fmt_int8, fmt_int16, fmt_int32, fmt_int64, fmt_string, fmt_uint8,
  fmt_uint16, fmt_uint32, fmt_uint64, fmt_any, Format, scalar, list_of,
}
use c2g.Val.Value.{
  Value, string, string_list, bool, bool_list, num, num_list, decimal64, decimal64_list, any, int8,
  int16, int32, int64, uint8, uint16, uint32, uint64,
}

-- `if x, err := f(val); err != nil { return nil, err } else { return T(x), err }`
abbrev pub wrap {ℓ} :
    {A : Type ℓ} {F : Type 0}
    → (A → Value F)
    → Result ConvError A
    → Result ConvError (Option (Value F))
wrap c (ok x) = ok (some (c x))
wrap c (err e) = err e

module _ {F : Type 0} (lib : Floats F) where
  -- The switch of `Conv`.
  unfoldable pub conv_to : Format → Dyn F → Result ConvError (Option (Value F))
  conv_to (scalar fmt_bool) v = wrap bool (to_bool lib v)
  conv_to (list_of fmt_bool) v = wrap bool_list (to_bool_list lib v)
  conv_to (scalar fmt_int8) v = wrap (num int8) (to_int8 lib v)
  conv_to (list_of fmt_int8) v = wrap (num_list int8) (to_int8_list lib v)
  conv_to (scalar fmt_uint8) v = wrap (num uint8) (to_uint8 lib v)
  conv_to (list_of fmt_uint8) v = wrap (num_list uint8) (to_uint8_list lib v)
  conv_to (scalar fmt_int16) v = wrap (num int16) (to_int16 lib v)
  conv_to (list_of fmt_int16) v = wrap (num_list int16) (to_int16_list lib v)
  conv_to (scalar fmt_uint16) v = wrap (num uint16) (to_uint16 lib v)
  conv_to (list_of fmt_uint16) v = wrap (num_list uint16) (to_uint16_list lib v)
  conv_to (scalar fmt_int32) v = wrap (num int32) (to_int32 lib v)
  conv_to (list_of fmt_int32) v = wrap (num_list int32) (to_int32_list lib v)
  conv_to (scalar fmt_uint32) v = wrap (num uint32) (to_uint32 lib v)
  conv_to (list_of fmt_uint32) v = wrap (num_list uint32) (to_uint32_list lib v)
  conv_to (scalar fmt_int64) v = wrap (num int64) (to_int64 lib v)
  conv_to (list_of fmt_int64) v = wrap (num_list int64) (to_int64_list lib v)
  conv_to (scalar fmt_uint64) v = wrap (num uint64) (to_uint64 lib v)
  conv_to (list_of fmt_uint64) v = wrap (num_list uint64) (to_uint64_list lib v)
  conv_to (scalar fmt_decimal64) v = wrap decimal64 (to_decimal64 lib v)
  conv_to (list_of fmt_decimal64) v = wrap decimal64_list (to_decimal64_list lib v)
  conv_to (scalar fmt_any) v = ok (some (any v))
  conv_to (scalar fmt_string) v = wrap string (to_string lib v)
  conv_to (list_of fmt_string) v = wrap string_list (to_string_list lib v)
  conv_to f v = err no_format

  -- `Conv`: a nil value stays nil, with no error.
  unfoldable pub conv : Format → Dyn F → Result ConvError (Option (Value F))
  unfolding conv_to
  conv f nil = ok none
  conv f v = conv_to f v

  -- `ConvOneOf`: the first of the formats that `Conv` accepts, and which one it was.
  unfoldable pub conv_one_of : List Format → Dyn F → Result ConvError (Option (Value F) × Format)
  conv_one_of [] v = err no_format
  conv_one_of (f ∷ fs) v =
      let rest = conv_one_of fs v in elim (conv f v) [ ok x ↦ ok (x, f) | err e ↦ rest ]
