-- ===== src/Common/Int/Wrap.antt =====
-- Converting an integer to a type of a given width: the result is in range, a number that is in
-- range is kept, and the loss is a multiple of the modulus.
use native.Mathlib.Nat.{mod-lt, mod-eq_of_lt}
use c2g.Common.{ℕ, ◌+◌, ◌<◌, ◌≡◌, ap, arith}
use c2g.Common.Int.{ℤ, pos, negsuc, wrap_unsigned, wrap_signed, IsSigned, IsUnsigned}

pub wrap_unsigned-IsUnsigned : (m : ℕ) (z : ℤ) → 0 < m → IsUnsigned m (wrap_unsigned m z)
unfolding wrap_unsigned
wrap_unsigned-IsUnsigned m (pos n) h = omega arith
wrap_unsigned-IsUnsigned m (negsuc n) h = omega arith

pub wrap_unsigned_of_IsUnsigned : (m : ℕ) (z : ℤ) → IsUnsigned m z → wrap_unsigned m z ≡ z
unfolding wrap_unsigned
wrap_unsigned_of_IsUnsigned m (pos n) h = ap pos (mod-eq_of_lt h)
wrap_unsigned_of_IsUnsigned m (negsuc n) h = absurd h

pub wrap_signed-IsSigned : (h : ℕ) (z : ℤ) → 0 < h → IsSigned h (wrap_signed h z)
unfolding wrap_signed
wrap_signed-IsSigned h (pos n) p = ground (arith, mod-lt n {m = h + h} (omega arith))
wrap_signed-IsSigned h (negsuc n) p = ground (arith, mod-lt n {m = h + h} (omega arith))

pub wrap_signed_of_IsSigned : (h : ℕ) (z : ℤ) → IsSigned h z → wrap_signed h z ≡ z
unfolding wrap_signed
wrap_signed_of_IsSigned h (pos n) p = ground (arith, mod-eq_of_lt {n = n} {m = h + h} (omega arith))
wrap_signed_of_IsSigned h (negsuc n) p =
    ground (arith, mod-eq_of_lt {n = n} {m = h + h} (omega arith))
