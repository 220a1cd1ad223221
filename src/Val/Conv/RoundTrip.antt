-- ===== src/Val/Conv/RoundTrip.antt =====
-- Converting the text of a value gives the value back.
use c2g.Common.{◌^◌, ◌≡◌, refl, true, false, some, List, Bytes, arith, ok, bytes_eq}
use c2g.Common.Int.{ℤ, pos, negsuc, ◌≤ℤ◌, IsSigned, IsUnsigned}
use c2g.Common.Int.Wrap.{wrap_signed_of_IsSigned, wrap_unsigned_of_IsUnsigned}
use c2g.Val.Dyn.{Dyn, Floats}
use c2g.Val.Format.{scalar}
use c2g.Val.Strconv.{parse_int, format_int}
use c2g.Val.Strconv.RoundTrip.{parse_int-format_int}
use c2g.Val.Value.{
  Width, int8, int16, int32, int64, uint8, uint16, uint32, uint64, Value, string, bool, num, format,
  to_string, width_kind, bool_text,
}
use c2g.Val.Conv.Scalars.{
  to_int8, to_uint8, to_int16, to_uint16, to_int32, to_uint32, to_int64, to_uint64, to_bool,
  to_string as conv_string,
}
use c2g.Val.Conv.{conv}

-- The numbers whose text `Conv` reads back, for each type.
abbrev pub IsReadable : Width → ℤ → Type 0
IsReadable int8 n = IsSigned (2 ^ 7) n
IsReadable int16 n = (negsuc 0x8e ≤ℤ n) × (n ≤ℤ pos 0x8f)
IsReadable int32 n = IsSigned (2 ^ 63) n
IsReadable int64 n = IsSigned (2 ^ 63) n
IsReadable uint8 n = IsUnsigned (2 ^ 8) n
IsReadable uint16 n = IsUnsigned (2 ^ 16) n
IsReadable uint32 n = IsUnsigned (2 ^ 32) n
IsReadable uint64 n = IsUnsigned (2 ^ 63) n

-- Booleans, strings, and those numbers.
abbrev pub HasText : {F : Type 0} → Value F → Type 0
HasText (num w n) = IsReadable w n
HasText (string s) = Unit
HasText (bool b) = Unit
HasText v = ⊥

-- Every readable number is an `int64`.
IsReadable-IsSigned : (w : Width) (n : ℤ) → IsReadable w n → IsSigned (2 ^ 63) n
IsReadable-IsSigned int8 n h = ground arith
IsReadable-IsSigned _ n h = ground arith

module _ {F : Type 0} (lib : Floats F) (print_floats : List F → Bytes) where
  num_round_trip :
      (w : Width) (n : ℤ)
      → IsReadable w n
      → parse_int (format_int n) ≡ some n
      → conv lib (scalar (width_kind w)) (Dyn.string (format_int n)) ≡ ok (some (num w n))
  unfolding conv to_int8 to_uint8 to_int16 to_uint16 to_int32 to_uint32 to_int64 to_uint64
      width_kind
  num_round_trip int8 n h e = rw (e, wrap_signed_of_IsSigned (2 ^ 7) n h) (ground arith)
  num_round_trip int16 n h e =
      rw (e, wrap_signed_of_IsSigned (2 ^ 15) n (ground arith)) (ground arith)
  num_round_trip int32 n h e = rw e
  num_round_trip int64 n h e = rw e
  num_round_trip uint8 n h e = rw (e, wrap_unsigned_of_IsUnsigned (2 ^ 8) n h) (ground arith)
  num_round_trip uint16 n h e = rw (e, wrap_unsigned_of_IsUnsigned (2 ^ 16) n h) (ground arith)
  num_round_trip uint32 n h e =
      rw (e, wrap_unsigned_of_IsUnsigned (2 ^ 64) n (ground arith)) (ground arith)
  num_round_trip uint64 n h e = rw (e, wrap_unsigned_of_IsUnsigned (2 ^ 64) n (ground arith))

  -- The text of a boolean, of a string or of a readable number converts back to the value.
  pub conv-to_string :
      (x : Value F)
      → HasText x
      → conv lib (format x) (Dyn.string (to_string lib print_floats x)) ≡ ok (some x)
  unfolding conv format to_string to_bool bool_text conv_string bytes_eq
  conv-to_string (num w n) h =
      num_round_trip w n h (parse_int-format_int n (IsReadable-IsSigned w n h))
  conv-to_string (string s) h = refl
  conv-to_string (bool true) h = refl
  conv-to_string (bool false) h = refl
  conv-to_string _ h = absurd h
