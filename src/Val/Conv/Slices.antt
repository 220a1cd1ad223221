-- ===== src/Val/Conv/Slices.antt =====
-- val/conv.go: the conversions of one Go value to a slice. An element that cannot be converted
-- fails the whole slice with its error; a value that is no slice makes a slice of one.
use c2g.Common.{◌^◌, Bool, List, [], ◌∷◌, Bytes, map, Result, ok, err, ◌>>=◌, traverse}
use c2g.Common.Int.{ℤ, wrap_signed, wrap_unsigned}
use c2g.Val.Dyn.{
  int8, uint8, int16, uint16, int32, uint32, int64, uint64, int, uint, Dyn, Dyns, done, more,
  float64, string, time, bools, ints, floats, strings, times, anys, Floats, ConvError,
  cannot_coerse,
}
use c2g.Val.Conv.Scalars.{
  to_int8, to_uint8, to_int16, to_uint16, to_int32, to_uint32, to_int64, to_uint64, to_decimal64,
  to_bool, to_string,
}
use Prim.Native.String.{String}

-- The loop over a `[]interface{}`.
unfoldable pub traverse_dyns :
    {F A : Type 0} → (Dyn F → Result ConvError A) → Dyns F → Result ConvError (List A)
traverse_dyns f done = ok []
traverse_dyns f (more x xs) = f x >>= λ y. traverse_dyns f xs >>= λ ys. ok (y ∷ ys)

-- `default: if i, notSingle := f(val); notSingle == nil { return []T{i}, nil }`
abbrev pub single_or {ℓ} : {A : Type ℓ} → String → Result ConvError A → Result ConvError (List A)
single_or target (ok i) = ok (i ∷ [])
single_or target (err e) = err (cannot_coerse target)

module _ {F : Type 0} (lib : Floats F) where
  -- `toInt8List`
  unfoldable pub to_int8_list : Dyn F → Result ConvError (List ℤ)
  unfolding traverse_dyns
  to_int8_list (ints int8 x) = ok x
  to_int8_list (anys x) = traverse_dyns (to_int8 lib) x
  to_int8_list (floats x) = traverse (λ y. to_int8 lib (float64 y)) x
  to_int8_list (strings x) = traverse (λ y. to_int8 lib (string y)) x
  to_int8_list v = single_or "[]int8" (to_int8 lib v)

  -- `toUInt8List`
  unfoldable pub to_uint8_list : Dyn F → Result ConvError (List ℤ)
  unfolding traverse_dyns
  to_uint8_list (ints uint8 x) = ok x
  to_uint8_list (anys x) = traverse_dyns (to_uint8 lib) x
  to_uint8_list (floats x) = traverse (λ y. to_uint8 lib (float64 y)) x
  to_uint8_list (strings x) = traverse (λ y. to_uint8 lib (string y)) x
  to_uint8_list v = single_or "[]uint8" (to_uint8 lib v)

  -- `toInt16List`
  unfoldable pub to_int16_list : Dyn F → Result ConvError (List ℤ)
  unfolding traverse_dyns
  to_int16_list (ints int16 x) = ok x
  to_int16_list (anys x) = traverse_dyns (to_int16 lib) x
  to_int16_list (floats x) = traverse (λ y. to_int16 lib (float64 y)) x
  to_int16_list (strings x) = traverse (λ y. to_int16 lib (string y)) x
  to_int16_list v = single_or "[]int16" (to_int16 lib v)

  -- `toUInt16List`
  unfoldable pub to_uint16_list : Dyn F → Result ConvError (List ℤ)
  unfolding traverse_dyns
  to_uint16_list (ints uint16 x) = ok x
  to_uint16_list (anys x) = traverse_dyns (to_uint16 lib) x
  to_uint16_list (floats x) = traverse (λ y. to_uint16 lib (float64 y)) x
  to_uint16_list (strings x) = traverse (λ y. to_uint16 lib (string y)) x
  to_uint16_list v = single_or "[]uint16" (to_uint16 lib v)

  -- `toInt32List`
  unfoldable pub to_int32_list : Dyn F → Result ConvError (List ℤ)
  unfolding traverse_dyns
  to_int32_list (ints int x) = ok x
  to_int32_list (ints int32 x) = traverse (λ y. to_int32 lib (Dyn.int int32 y)) x
  to_int32_list (anys x) = traverse_dyns (to_int32 lib) x
  to_int32_list (floats x) = traverse (λ y. to_int32 lib (float64 y)) x
  to_int32_list (strings x) = traverse (λ y. to_int32 lib (string y)) x
  to_int32_list v = single_or "[]int" (to_int32 lib v)

  -- `toUInt32List`
  unfoldable pub to_uint32_list : Dyn F → Result ConvError (List ℤ)
  unfolding traverse_dyns
  to_uint32_list (ints uint x) = ok x
  to_uint32_list (ints uint32 x) = traverse (λ y. to_uint32 lib (Dyn.int uint32 y)) x
  to_uint32_list (anys x) = traverse_dyns (to_uint32 lib) x
  to_uint32_list (floats x) = traverse (λ y. to_uint32 lib (float64 y)) x
  to_uint32_list (strings x) = traverse (λ y. to_uint32 lib (string y)) x
  to_uint32_list v = single_or "[]int" (to_uint32 lib v)

  -- `toInt64List`
  unfoldable pub to_int64_list : Dyn F → Result ConvError (List ℤ)
  unfolding traverse_dyns
  to_int64_list (ints int64 x) = ok x
  to_int64_list (ints int x) = ok (map (wrap_signed (2 ^ 63)) x)
  to_int64_list (times x) = traverse (λ y. to_int64 lib (time y)) x
  to_int64_list (anys x) = traverse_dyns (to_int64 lib) x
  to_int64_list (floats x) = traverse (λ y. to_int64 lib (float64 y)) x
  to_int64_list (strings x) = traverse (λ y. to_int64 lib (string y)) x
  to_int64_list v = single_or "[]int" (to_int64 lib v)

  -- `toUInt64List`
  unfoldable pub to_uint64_list : Dyn F → Result ConvError (List ℤ)
  unfolding traverse_dyns
  to_uint64_list (ints uint64 x) = ok x
  to_uint64_list (ints int x) = ok (map (wrap_unsigned (2 ^ 64)) x)
  to_uint64_list (times x) = traverse (λ y. to_uint64 lib (time y)) x
  to_uint64_list (anys x) = traverse_dyns (to_uint64 lib) x
  to_uint64_list (floats x) = traverse (λ y. to_uint64 lib (float64 y)) x
  to_uint64_list (strings x) = traverse (λ y. to_uint64 lib (string y)) x
  to_uint64_list v = single_or "int64 array" (to_uint64 lib v)

  -- `toDecimal64List`
  unfoldable pub to_decimal64_list : Dyn F → Result ConvError (List F)
  unfolding traverse_dyns
  to_decimal64_list (floats x) = ok x
  to_decimal64_list (anys x) = traverse_dyns (to_decimal64 lib) x
  to_decimal64_list (strings x) = traverse (λ y. to_decimal64 lib (string y)) x
  to_decimal64_list v = single_or "[]int" (to_decimal64 lib v)

  -- `toBoolList`
  unfoldable pub to_bool_list : Dyn F → Result ConvError (List Bool)
  unfolding traverse_dyns
  to_bool_list (bools x) = ok x
  to_bool_list (anys x) = traverse_dyns (to_bool lib) x
  to_bool_list (strings x) = traverse (λ y. to_bool lib (string y)) x
  to_bool_list v = single_or "boolean array" (to_bool lib v)

  -- `toStringList`, which makes no slice of a single value
  unfoldable pub to_string_list : Dyn F → Result ConvError (List Bytes)
  unfolding traverse_dyns
  to_string_list (strings x) = ok x
  to_string_list (floats x) = traverse (λ y. to_string lib (float64 y)) x
  to_string_list (anys x) = traverse_dyns (to_string lib) x
  to_string_list v = err (cannot_coerse "[]string")
