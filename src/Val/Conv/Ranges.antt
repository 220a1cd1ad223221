-- ===== src/Val/Conv/Ranges.antt =====
-- Which numbers the conversions to the integer types accept.
use c2g.Common.{
  ℕ, ◌^◌, ◌≡◌, refl, ap, ◌↔◌, Bool, true, false, Option, some, Result, ok, err, arith, Bool-cases,
  inl, inr, if◌then◌else◌,
}
use c2g.Common.Int.{ℤ, pos, negsuc, ◌≤ℤ◌, between, IsSigned, IsUnsigned, wrap_signed, wrap_unsigned}
use c2g.Common.Int.Wrap.{
  wrap_signed-IsSigned, wrap_unsigned-IsUnsigned, wrap_signed_of_IsSigned,
  wrap_unsigned_of_IsUnsigned,
}
use mathlib.Core.Path.{subst}
use Prim.Native.String.{String}
use c2g.Val.Dyn.{
  int8, uint8, int16, uint16, int64, uint64, Dyn, string, Floats, ConvError, cannot_coerse,
}
use c2g.Val.Strconv.{parse_int}
use c2g.Val.Format.{scalar}
use c2g.Val.Value.{Width, Value, num, width_kind}
use c2g.Val.Conv.{conv, conv_to, wrap}
use c2g.Val.Conv.RoundTrip.{IsReadable}
use c2g.Val.Conv.Scalars.{
  to_int8, to_uint8, to_int16, to_uint16, to_int32, to_uint32, to_int64, to_uint64, narrow,
  min_int8, max_int8, max_uint8, min_int16, max_int16, max_uint16, max_uint32,
}

-- The integer that a Go value is, or whose text it is: one of the 64 bits of an `int`, and no uint64,
-- which toInt32 refuses.
abbrev pub Carries : {F : Type 0} → Dyn F → ℤ → Type 0
Carries (Dyn.int uint64 x) n = ⊥
Carries (Dyn.int k x) n = (x ≡ n) × IsSigned (2 ^ 63) n
Carries (string s) n = (parse_int s ≡ some n) × IsSigned (2 ^ 63) n
Carries v n = ⊥

-- The value is not of a type that the conversion casts without looking at the number.
abbrev pub IsChecked : {F : Type 0} → Width → Dyn F → Type 0
IsChecked Width.int8 (Dyn.int int8 x) = ⊥
IsChecked Width.int8 (Dyn.int uint8 x) = ⊥
IsChecked Width.uint8 (Dyn.int int8 x) = ⊥
IsChecked Width.uint8 (Dyn.int uint8 x) = ⊥
IsChecked Width.int16 (Dyn.int int8 x) = ⊥
IsChecked Width.int16 (Dyn.int uint8 x) = ⊥
IsChecked Width.int16 (Dyn.int int16 x) = ⊥
IsChecked Width.int16 (Dyn.int uint16 x) = ⊥
IsChecked Width.uint16 (Dyn.int int8 x) = ⊥
IsChecked Width.uint16 (Dyn.int uint8 x) = ⊥
IsChecked Width.uint16 (Dyn.int int16 x) = ⊥
IsChecked Width.uint16 (Dyn.int uint16 x) = ⊥
IsChecked Width.uint32 (Dyn.int int64 x) = Unit {0}
IsChecked Width.uint32 (Dyn.int k x) = ⊥
IsChecked w v = Unit {0}

-- The numbers that a conversion does not refuse: those from -143 to 143 for FmtInt8 and FmtInt16,
-- those of the type for FmtUInt8, FmtUInt16 and FmtUInt32, all others for the rest.
abbrev pub IsAccepted : Width → ℤ → Type 0
IsAccepted Width.int8 n = (negsuc 142 ≤ℤ n) × (n ≤ℤ pos 143)
IsAccepted Width.int16 n = (negsuc 142 ≤ℤ n) × (n ≤ℤ pos 143)
IsAccepted Width.uint8 n = IsUnsigned (2 ^ 8) n
IsAccepted Width.uint16 n = IsUnsigned (2 ^ 16) n
IsAccepted Width.uint32 n = IsUnsigned (2 ^ 32) n
IsAccepted w n = Unit {0}

-- The name in the error.
abbrev pub target_name : Width → String
target_name Width.int8 = "int8"
target_name Width.int16 = "int16"
target_name Width.uint8 = "uint8"
target_name Width.uint16 = "uint16"
target_name Width.uint32 = "uint32"
target_name w = ""

module _ {F : Type 0} (lib : Floats F) where
  to_int32-Carries : (v : Dyn F) (n : ℤ) → Carries v n → to_int32 lib v ≡ ok n
  unfolding to_int32
  to_int32-Carries (Dyn.int uint64 x) n c = absurd c
  to_int32-Carries (Dyn.int k x) n c =
      let e = c.0 in rw e (rw (wrap_signed_of_IsSigned (2 ^ 63) n c.1) refl)
  to_int32-Carries (string s) n c = let e = c.0 in rw e refl
  to_int32-Carries _ n c = absurd c

  to_int64-Carries : (v : Dyn F) (n : ℤ) → Carries v n → to_int64 lib v ≡ ok n
  unfolding to_int64
  to_int64-Carries (Dyn.int uint64 x) n c = absurd c
  to_int64-Carries (Dyn.int k x) n c =
      let e = c.0 in rw e (rw (wrap_signed_of_IsSigned (2 ^ 63) n c.1) refl)
  to_int64-Carries (string s) n c = let e = c.0 in rw e refl
  to_int64-Carries _ n c = absurd c

  conv-Carries :
      (w : Width) (v : Dyn F) (n : ℤ)
      → Carries v n
      → conv lib (scalar (width_kind w)) v ≡ conv_to lib (scalar (width_kind w)) v
  unfolding conv
  conv-Carries w Dyn.nil n c = absurd c
  conv-Carries w _ n c = refl

  to_int8-checked :
      (v : Dyn F) (n : ℤ)
      → Carries v n
      → IsChecked Width.int8 v
      → to_int8 lib v ≡ narrow "int8" min_int8 max_int8 (wrap_signed (2 ^ 7)) (ok n)
  unfolding to_int8
  to_int8-checked (Dyn.int int8 x) n c k = absurd k
  to_int8-checked (Dyn.int uint8 x) n c k = absurd k
  to_int8-checked v n c k =
      ap (narrow "int8" min_int8 max_int8 (wrap_signed (2 ^ 7))) (to_int32-Carries v n c)

  to_uint8-checked :
      (v : Dyn F) (n : ℤ)
      → Carries v n
      → IsChecked Width.uint8 v
      → to_uint8 lib v ≡ narrow "uint8" (pos 0) max_uint8 (wrap_unsigned (2 ^ 8)) (ok n)
  unfolding to_uint8
  to_uint8-checked (Dyn.int int8 x) n c k = absurd k
  to_uint8-checked (Dyn.int uint8 x) n c k = absurd k
  to_uint8-checked v n c k =
      ap (narrow "uint8" (pos 0) max_uint8 (wrap_unsigned (2 ^ 8))) (to_int32-Carries v n c)

  to_int16-checked :
      (v : Dyn F) (n : ℤ)
      → Carries v n
      → IsChecked Width.int16 v
      → to_int16 lib v ≡ narrow "int16" min_int16 max_int16 (wrap_signed (2 ^ 15)) (ok n)
  unfolding to_int16
  to_int16-checked (Dyn.int int8 x) n c k = absurd k
  to_int16-checked (Dyn.int uint8 x) n c k = absurd k
  to_int16-checked (Dyn.int int16 x) n c k = absurd k
  to_int16-checked (Dyn.int uint16 x) n c k = absurd k
  to_int16-checked v n c k =
      ap (narrow "int16" min_int16 max_int16 (wrap_signed (2 ^ 15))) (to_int32-Carries v n c)

  to_uint16-checked :
      (v : Dyn F) (n : ℤ)
      → Carries v n
      → IsChecked Width.uint16 v
      → to_uint16 lib v ≡ narrow "uint16" (pos 0) max_uint16 (wrap_unsigned (2 ^ 16)) (ok n)
  unfolding to_uint16
  to_uint16-checked (Dyn.int int8 x) n c k = absurd k
  to_uint16-checked (Dyn.int uint8 x) n c k = absurd k
  to_uint16-checked (Dyn.int int16 x) n c k = absurd k
  to_uint16-checked (Dyn.int uint16 x) n c k = absurd k
  to_uint16-checked v n c k =
      ap (narrow "uint16" (pos 0) max_uint16 (wrap_unsigned (2 ^ 16))) (to_int32-Carries v n c)

  to_uint32-checked :
      (v : Dyn F) (n : ℤ)
      → Carries v n
      → IsChecked Width.uint32 v
      → to_uint32 lib v ≡ narrow "uint32" (pos 0) max_uint32 (wrap_unsigned (2 ^ 64)) (ok n)
  unfolding to_uint32
  to_uint32-checked (Dyn.int int64 x) n c k =
      ap (narrow "uint32" (pos 0) max_uint32 (wrap_unsigned (2 ^ 64)))
        (to_int64-Carries (Dyn.int int64 x) n c)
  to_uint32-checked (Dyn.int uint64 x) n c k = absurd c
  to_uint32-checked (Dyn.int _ x) n c k = absurd k
  to_uint32-checked v n c k =
      ap (narrow "uint32" (pos 0) max_uint32 (wrap_unsigned (2 ^ 64))) (to_int64-Carries v n c)

  to_uint64-Carries :
      (v : Dyn F) (n : ℤ) → Carries v n → to_uint64 lib v ≡ ok (wrap_unsigned (2 ^ 64) n)
  unfolding to_uint64
  to_uint64-Carries (Dyn.int uint64 x) n c = absurd c
  to_uint64-Carries (Dyn.int k x) n c = let e = c.0 in rw e refl
  to_uint64-Carries (string s) n c = let e = c.0 in rw e refl
  to_uint64-Carries _ n c = absurd c

Carries-IsSigned : {F : Type 0} (v : Dyn F) (n : ℤ) → Carries v n → IsSigned (2 ^ 63) n
Carries-IsSigned (Dyn.int uint64 x) n c = absurd c
Carries-IsSigned (Dyn.int k x) n c = c.1
Carries-IsSigned (string s) n c = c.1
Carries-IsSigned _ n c = absurd c

-- Which numbers are kept, and which are refused.
abbrev pub Outcome : {F : Type 0} → Width → ℤ → Result ConvError (Option (Value F)) → Type 0
Outcome w n r =
    ((r ≡ ok (some (num w n))) ↔ IsReadable w n)
    × ((r ≡ err (cannot_coerse (target_name w))) ↔ (¬ IsAccepted w n))

narrow-Outcome :
    {F : Type 0} (w : Width) (target : String) (lo hi : ℤ) (cast : ℤ → ℤ) (n : ℤ)
    → (between lo hi n ≡ true → cast n ≡ n → IsReadable w n)
    → (IsReadable w n → (between lo hi n ≡ true) × (cast n ≡ n))
    → ((between lo hi n ≡ false) ↔ (¬ IsAccepted w n))
    → target ≡ target_name w
    → Outcome {F = F} w n (wrap (num w) (narrow target lo hi cast (ok n)))
narrow-Outcome {F} w target lo hi cast n kept inside outside t = (
  (
    λ e. elim (Bool-cases (between lo hi n)) [
      | inl b ↦ kept b (num_of b e)
      | inr b ↦ absurd (no_number b e)
    ],
    λ h. let (b, e) = inside h in rw (b, e) refl,
  ),
  (
    λ e. elim (Bool-cases (between lo hi n)) [
      | inl b ↦ absurd (no_error b e)
      | inr b ↦ outside.0 b
    ],
    λ h. rw (outside.1 h) (ap (λ s. err (cannot_coerse s)) t),
  ),
)
  where
    given : Bool → Result ConvError (Option (Value F))
    given b = wrap (num w) (if b then ok (cast n) else err (cannot_coerse target))

    num_of : between lo hi n ≡ true → given (between lo hi n) ≡ ok (some (num w n)) → cast n ≡ n
    num_of b e = let e' = subst (λ x. given x ≡ ok (some (num w n))) b e in cc

    no_number : between lo hi n ≡ false → given (between lo hi n) ≡ ok (some (num w n)) → ⊥
    no_number b e = let e' = subst (λ x. given x ≡ ok (some (num w n))) b e in cc

    no_error :
        between lo hi n ≡ true → given (between lo hi n) ≡ err (cannot_coerse (target_name w)) → ⊥
    no_error b e = let e' = subst (λ x. given x ≡ err (cannot_coerse (target_name w))) b e in cc

unsigned-Outcome :
    {F : Type 0} (w : Width) (target : String) (hi : ℤ) (m : ℕ) (n : ℤ)
    → (IsReadable w n → IsUnsigned m n)
    → (between (pos 0) hi n ≡ true → IsReadable w n)
    → (IsReadable w n → between (pos 0) hi n ≡ true)
    → ((between (pos 0) hi n ≡ false) ↔ (¬ IsAccepted w n))
    → target ≡ target_name w
    → Outcome {F = F} w n (wrap (num w) (narrow target (pos 0) hi (wrap_unsigned m) (ok n)))
unsigned-Outcome w target hi m n fits kept inside outside e =
    narrow-Outcome w target (pos 0) hi (wrap_unsigned m) n (λ b _. kept b)
      (λ h. (inside h, wrap_unsigned_of_IsUnsigned m n (fits h))) outside e

uint8-Outcome :
    {F : Type 0} (n : ℤ)
    → Outcome {F = F} Width.uint8 n
        (wrap (num Width.uint8) (narrow "uint8" (pos 0) max_uint8 (wrap_unsigned (2 ^ 8)) (ok n)))
uint8-Outcome n =
    unsigned-Outcome Width.uint8 "uint8" max_uint8 (2 ^ 8) n (λ h. h) (λ b. ground arith)
      (λ h. ground arith) (λ b a. ground arith, λ h. ground arith) refl

uint16-Outcome :
    {F : Type 0} (n : ℤ)
    → Outcome {F = F} Width.uint16 n (
        wrap
          (num Width.uint16)
          (narrow "uint16" (pos 0) max_uint16 (wrap_unsigned (2 ^ 16)) (ok n)))
uint16-Outcome n =
    unsigned-Outcome Width.uint16 "uint16" max_uint16 (2 ^ 16) n (λ h. h) (λ b. ground arith)
      (λ h. ground arith) (λ b a. ground arith, λ h. ground arith) refl

uint32-Outcome :
    {F : Type 0} (n : ℤ)
    → Outcome {F = F} Width.uint32 n (
        wrap
          (num Width.uint32)
          (narrow "uint32" (pos 0) max_uint32 (wrap_unsigned (2 ^ 64)) (ok n)))
uint32-Outcome n =
    unsigned-Outcome Width.uint32 "uint32" max_uint32 (2 ^ 64) n (λ h. ground arith)
      (λ b. ground arith) (λ h. ground arith) (λ b a. ground arith, λ h. ground arith) refl

int8-Outcome :
    {F : Type 0} (n : ℤ)
    → Outcome {F = F} Width.int8 n
        (wrap (num Width.int8) (narrow "int8" min_int8 max_int8 (wrap_signed (2 ^ 7)) (ok n)))
int8-Outcome n =
    narrow-Outcome Width.int8 "int8" min_int8 max_int8 (wrap_signed (2 ^ 7)) n
      (λ b e. subst (IsSigned (2 ^ 7)) e (wrap_signed-IsSigned (2 ^ 7) n (omega arith)))
      (λ h. (ground arith, wrap_signed_of_IsSigned (2 ^ 7) n h))
      (λ b a. ground arith, λ h. ground arith) refl

int16-Outcome :
    {F : Type 0} (n : ℤ)
    → Outcome {F = F} Width.int16 n
        (wrap (num Width.int16) (narrow "int16" min_int16 max_int16 (wrap_signed (2 ^ 15)) (ok n)))
int16-Outcome n =
    narrow-Outcome Width.int16 "int16" min_int16 max_int16 (wrap_signed (2 ^ 15)) n
      (λ b e. ground arith) (λ h. (ground arith, wrap_signed_of_IsSigned (2 ^ 15) n (ground arith)))
      (λ b a. ground arith, λ h. ground arith) refl

-- A conversion that refuses nothing.
open-Outcome :
    {F : Type 0} (w : Width) (n m : ℤ)
    → ((m ≡ n) ↔ IsReadable w n)
    → IsAccepted w n
    → Outcome {F = F} w n (ok (some (num w m)))
open-Outcome w n m (to, from) a =
    ((λ e. to (cc), λ h. rw (from h) refl), (λ e. cc, λ h. absurd (h a)))

fixed-IsUnsigned : (n : ℤ) → wrap_unsigned (2 ^ 64) n ≡ n → IsUnsigned (2 ^ 64) n
fixed-IsUnsigned n e =
    subst (IsUnsigned (2 ^ 64)) e (wrap_unsigned-IsUnsigned (2 ^ 64) n (omega arith))

module _ {F : Type 0} (lib : Floats F) where
  -- `Conv` of an integer, or of the decimal text of one, keeps the number exactly where it is one of the
  -- format (FmtInt16: from -143 to 143; FmtUInt64: below 2 ^ 63; FmtInt32: any int64), and refuses it
  -- as one that it cannot convert exactly where it is not from -143 to 143 (FmtInt8, FmtInt16), or is
  -- negative or too large for the format (FmtUInt8, FmtUInt16, FmtUInt32). The integer is no uint64,
  -- it fits an int64, and it is not of a type that the conversion casts unchecked.
  pub conv-Outcome :
      (w : Width) (v : Dyn F) (n : ℤ)
      → Carries v n
      → IsChecked w v
      → Outcome w n (conv lib (scalar (width_kind w)) v)
  unfolding conv_to width_kind
  conv-Outcome Width.int8 v n c k =
      rw (conv-Carries lib Width.int8 v n c) (rw (to_int8-checked lib v n c k) (int8-Outcome n))
  conv-Outcome Width.int16 v n c k =
      rw (conv-Carries lib Width.int16 v n c) (rw (to_int16-checked lib v n c k) (int16-Outcome n))
  conv-Outcome Width.uint8 v n c k =
      rw (conv-Carries lib Width.uint8 v n c) (rw (to_uint8-checked lib v n c k) (uint8-Outcome n))
  conv-Outcome Width.uint16 v n c k =
      rw (conv-Carries lib Width.uint16 v n c)
        (rw (to_uint16-checked lib v n c k) (uint16-Outcome n))
  conv-Outcome Width.uint32 v n c k =
      rw (conv-Carries lib Width.uint32 v n c)
        (rw (to_uint32-checked lib v n c k) (uint32-Outcome n))
  conv-Outcome Width.uint64 v n c k =
      let s = Carries-IsSigned v n c in
      rw (conv-Carries lib Width.uint64 v n c) (
        rw (to_uint64-Carries lib v n c) (
          open-Outcome Width.uint64 n (wrap_unsigned (2 ^ 64) n)
            (
              λ e. let u = fixed-IsUnsigned n e in ground arith,
              λ h. wrap_unsigned_of_IsUnsigned (2 ^ 64) n (ground arith),
            )
            tt))
  conv-Outcome Width.int32 v n c k = rw (conv-Carries lib Width.int32 v n c) (
      rw (to_int32-Carries lib v n c)
        (open-Outcome Width.int32 n n (λ _. Carries-IsSigned v n c, λ _. refl) tt))
  conv-Outcome Width.int64 v n c k = rw (conv-Carries lib Width.int64 v n c) (
      rw (to_int64-Carries lib v n c)
        (open-Outcome Width.int64 n n (λ _. Carries-IsSigned v n c, λ _. refl) tt))
