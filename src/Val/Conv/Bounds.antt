-- ===== src/Val/Conv/Bounds.antt =====
-- Which `int` values the conversions to the small types accept, and what they make of them.
use c2g.Common.{ℕ, ◌-◌, ◌^◌, ◌≤◌, ◌≡◌, arith, ok, err, some}
use c2g.Common.Int.{ℤ, pos, negsuc, ◌≤ℤ◌, IsSigned, wrap_signed, wrap_unsigned}
use c2g.Val.Dyn.{Dyn, int, Floats, cannot_coerse}
use c2g.Val.Format.{scalar, fmt_int8, fmt_int16}
use c2g.Val.Value.{Width, num, width_kind}
use c2g.Val.Conv.{conv}
use c2g.Val.Conv.RoundTrip.{IsReadable}
use c2g.Val.Conv.Scalars.{
  to_int8, to_uint8, to_int16, to_uint16, to_int32, to_uint32, to_int64, to_uint64,
}

module _ {F : Type 0} (lib : Floats F) where
  -- An `int` that the type asked for can hold converts to the same number, except that FmtInt16
  -- keeps only -143 to 143 and FmtUInt64 only what is below 2 ^ 63.
  pub conv-int :
      (w : Width) (n : ℤ)
      → IsReadable w n
      → conv lib (scalar (width_kind w)) (Dyn.int int n) ≡ ok (some (num w n))
  unfolding conv to_int8 to_uint8 to_int16 to_uint16 to_int32 to_uint32 to_int64 to_uint64
      width_kind wrap_signed wrap_unsigned
  conv-int Width.int8 n h = ground arith
  conv-int _ n h = ground arith

  -- The bound of toInt8 is 0x8f: an `int` from 128 to 143 is accepted, and becomes negative.
  pub conv-int8_wraps :
      (n : ℕ)
      → 128 ≤ n
      → n ≤ 143
      → conv lib (scalar fmt_int8) (Dyn.int int (pos n))
        ≡ ok (some (num Width.int8 (negsuc (255 - n))))
  unfolding conv to_int8 to_int32 wrap_signed wrap_unsigned
  conv-int8_wraps n h k = ground arith

  -- toInt16 has the bounds of toInt8: it refuses every `int` above 143 or below -143, those that
  -- fit an int16 too.
  pub conv-int16_refuses :
      (n : ℤ)
      → IsSigned (2 ^ 63) n
      → ¬ ((negsuc 142 ≤ℤ n) × (n ≤ℤ pos 143))
      → conv lib (scalar fmt_int16) (Dyn.int int n) ≡ err (cannot_coerse "int16")
  unfolding conv to_int16 to_int32 wrap_signed wrap_unsigned
  conv-int16_refuses n h p = ground arith
