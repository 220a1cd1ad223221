-- ===== src/Common/Int.antt =====
-- Signed integers over the native numbers, under the library's names (its ℤ stands on the unary ℕ),
-- and Go's conversions between integer types, which keep the low bits.
pub mod Wrap
use c2g.Common.{
  ℕ, suc, ◌+◌, ◌-◌, ◌*◌, ◌%◌, ◌^◌, ◌≤◌, ◌<◌, ◌≡◌, refl, Bool, arith, ltb, leb, if◌then◌else◌, ◌↔◌,
  ◌&&◌, true,
}

-- `negsuc n` is -(n + 1).
pub data ℤ : Type 0 where
  pos : ℕ → ℤ
  negsuc : ℕ → ℤ

abbrev pub pos_part : ℤ → ℕ
pos_part (pos n) = n
pos_part (negsuc n) = 0

abbrev pub neg_part : ℤ → ℕ
neg_part (pos n) = 0
neg_part (negsuc n) = suc n

-- a - b, as an integer.
abbrev pub sub_ℕ : ℕ → ℕ → ℤ
sub_ℕ a b = if leb b a then pos (a - b) else negsuc (b - a - 1)

infixl 65 ◌-ℤ◌
infix 50 ◌≤ℤ◌ ◌<ℤ◌
abbrev pub ◌-ℤ◌ : ℤ → ℤ → ℤ
a -ℤ b = sub_ℕ (pos_part a + neg_part b) (neg_part a + pos_part b)

abbrev pub ◌≤ℤ◌ : ℤ → ℤ → Type 0
a ≤ℤ b = pos_part a + neg_part b ≤ pos_part b + neg_part a

abbrev pub ◌<ℤ◌ : ℤ → ℤ → Type 0
a <ℤ b = pos_part a + neg_part b < pos_part b + neg_part a

abbrev pub leb_ℤ : ℤ → ℤ → Bool
leb_ℤ a b = leb (pos_part a + neg_part b) (pos_part b + neg_part a)

abbrev pub ltb_ℤ : ℤ → ℤ → Bool
ltb_ℤ a b = ltb (pos_part a + neg_part b) (pos_part b + neg_part a)

pub leb_ℤ_iff : (a b : ℤ) → (leb_ℤ a b ≡ true) ↔ (a ≤ℤ b)
leb_ℤ_iff a b = ground arith

pub eq_of_parts : (a b : ℤ) → pos_part a + neg_part b ≡ pos_part b + neg_part a → a ≡ b
eq_of_parts a b h = ground arith

-- The two-sided bound as one test, `lo <= x && x <= hi`.
abbrev pub between : ℤ → ℤ → ℤ → Bool
between lo hi x = leb_ℤ lo x && leb_ℤ x hi

-- Conversion to an unsigned type of modulus `m` (a power of two): the residue.
unfoldable pub wrap_unsigned : ℕ → ℤ → ℤ
wrap_unsigned m (pos n) = pos (n % m)
wrap_unsigned m (negsuc n) = pos (m - 1 - n % m)

-- Conversion to a signed type whose range is -h to h - 1.
abbrev fold_sign : ℕ → ℤ → ℤ
fold_sign h (pos n) = if ltb n h then pos n else negsuc (h + h - n - 1)
fold_sign h (negsuc n) = negsuc n

unfoldable pub wrap_signed : ℕ → ℤ → ℤ
unfolding wrap_unsigned
wrap_signed h z = fold_sign h (wrap_unsigned (h + h) z)

abbrev pub IsSigned : ℕ → ℤ → Type 0
IsSigned h (pos n) = n < h
IsSigned h (negsuc n) = n < h

abbrev pub IsUnsigned : ℕ → ℤ → Type 0
IsUnsigned m (pos n) = n < m
IsUnsigned m (negsuc n) = ⊥
