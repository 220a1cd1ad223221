-- ===== src/Val/Value/Order.antt =====
-- What the sign of `Compare` says about the order of two numbers of one type.
use c2g.Common.{◌≡◌, ◌≢◌, ◌↔◌, arith}
use c2g.Common.Int.{ℤ, pos, ◌-ℤ◌, ◌<ℤ◌, wrap_signed, wrap_unsigned}
use c2g.Val.Value.{Width, int8, int16, int32, int64}
use c2g.Val.Value.Compare.{compare_num}
use c2g.Val.Value.Equal.{Fits}

abbrev pub IsSignedWidth : Width → Type 0
IsSignedWidth int8 = Unit
IsSignedWidth int16 = Unit
IsSignedWidth int32 = Unit
IsSignedWidth int64 = Unit
IsSignedWidth _ = ⊥

-- Of two numbers of a signed type `Compare` is negative exactly when the first is smaller, and
-- positive exactly when it is greater, provided that their difference fits the type.
pub compare_num_signed :
    (w : Width) (x y : ℤ)
    → IsSignedWidth w
    → Fits w x
    → Fits w y
    → Fits w (x -ℤ y)
    → ((compare_num w x y <ℤ pos 0) ↔ (x <ℤ y)) × ((pos 0 <ℤ compare_num w x y) ↔ (y <ℤ x))
unfolding compare_num wrap_signed wrap_unsigned
compare_num_signed int8 x y s p q d = ground arith
compare_num_signed _ x y s p q d = ground arith

-- Where the difference does not fit, the sign of `Compare` is reversed.
pub compare_num_overflow :
    (w : Width) (x y : ℤ)
    → IsSignedWidth w
    → Fits w x
    → Fits w y
    → ¬ Fits w (x -ℤ y)
    → ((compare_num w x y <ℤ pos 0) ↔ (y <ℤ x)) × ((pos 0 <ℤ compare_num w x y) ↔ (x <ℤ y))
unfolding compare_num wrap_signed wrap_unsigned
compare_num_overflow int8 x y s p q d = ground arith
compare_num_overflow _ x y s p q d = ground arith

-- Of two different numbers of an unsigned type `Compare` gives 1, in either order.
pub compare_num_unsigned :
    (w : Width) (x y : ℤ)
    → ¬ IsSignedWidth w
    → Fits w x
    → Fits w y
    → x ≢ y
    → (compare_num w x y ≡ pos 1) × (compare_num w y x ≡ pos 1)
unfolding compare_num wrap_signed wrap_unsigned
compare_num_unsigned int8 x y s p q d = absurd (s tt)
compare_num_unsigned _ x y s p q d = ground arith
