-- ===== src/Val/Value/Equal.antt =====
-- What `Equal` decides.
use c2g.Common.{
  ◌^◌, ◌≡◌, ◌↔◌, ap, Bool, true, List, [], ◌∷◌, Bytes, bytes_eq, bytes_eq_iff, some, length, arith,
  All,
}
use c2g.Common.Int.{ℤ, pos, wrap_signed, wrap_unsigned, IsSigned, IsUnsigned}
use c2g.Val.Dyn.{Floats}
use c2g.Val.Format.{number, is_list}
use c2g.Val.Value.{
  Width, int8, int16, int32, int64, uint8, uint16, uint32, uint64, Enum, IdentRef, Value, string,
  string_list, bool, bool_list, num, num_list, decimal64, decimal64_list, enum, enum_list,
  ident_ref, ident_ref_list, any, format,
}
use c2g.Val.Value.Compare.{
  compare_bytes, compare_num, compare_ident, equal_value, equal_vals, equal_vals_loop, all_equal,
  eq_bool, eq_enum, eq_ident,
}
use c2g.Val.Value.Enums.{eq_ℤ}

pub eq_ℤ_iff : (a b : ℤ) → (eq_ℤ a b ≡ true) ↔ (a ≡ b)
eq_ℤ_iff a b = ground arith

-- The range of each integer type.
abbrev pub Fits : Width → ℤ → Type 0
Fits int8 = IsSigned (2 ^ 7)
Fits int16 = IsSigned (2 ^ 15)
Fits int32 = IsSigned (2 ^ 63)
Fits int64 = IsSigned (2 ^ 63)
Fits uint8 = IsUnsigned (2 ^ 8)
Fits uint16 = IsUnsigned (2 ^ 16)
Fits uint32 = IsUnsigned (2 ^ 64)
Fits uint64 = IsUnsigned (2 ^ 64)

compare_num_iff :
    (w : Width) (x y : ℤ) → Fits w x → Fits w y → (compare_num w x y ≡ pos 0) ↔ (x ≡ y)
unfolding compare_num wrap_signed wrap_unsigned
compare_num_iff int8 x y p q = ground arith
compare_num_iff _ x y p q = ground arith

compare_bytes_iff : (x y : Bytes) → (compare_bytes x y ≡ pos 0) ↔ (x ≡ y)
unfolding compare_bytes
compare_bytes_iff (x ∷ xs) (y ∷ ys) = ground (arith, compare_bytes_iff xs ys)
compare_bytes_iff _ _ = ground arith

compare_ident_iff : (x y : IdentRef) → (compare_ident x y ≡ pos 0) ↔ (x ≡ y)
unfolding compare_ident
compare_ident_iff x y =
    ground (arith, compare_bytes_iff x.base y.base, compare_bytes_iff x.label y.label)

pub all_equal_iff {ℓ} :
    {A : Type ℓ} (eq : A → A → Bool)
    → ((a b : A) → (eq a b ≡ true) ↔ (a ≡ b))
    → (xs ys : List A) → (all_equal eq xs ys ≡ true) ↔ (xs ≡ ys)
all_equal_iff eq h (x ∷ xs) (y ∷ ys) = ground (arith, h x y, all_equal_iff eq h xs ys)
all_equal_iff eq h _ _ = ground arith

eq_bool_iff : (a b : Bool) → (eq_bool a b ≡ true) ↔ (a ≡ b)
eq_bool_iff a b = ground arith

eq_enum_iff : (a b : Enum) → (eq_enum a b ≡ true) ↔ (a ≡ b)
eq_enum_iff a b = ground (arith, eq_ℤ_iff a.id b.id, bytes_eq_iff a.label b.label)

eq_ident_iff : (a b : IdentRef) → (eq_ident a b ≡ true) ↔ (a ≡ b)
eq_ident_iff a b = ground (arith, bytes_eq_iff a.base b.base, bytes_eq_iff a.label b.label)

-- The values on which `Equal` is exact: neither a float, nor an enum, nor an Any; numbers in the
-- range of their type.
abbrev pub IsExact : {F : Type 0} → Value F → Type 0
IsExact (num w x) = Fits w x
IsExact (decimal64 x) = ⊥
IsExact (decimal64_list x) = ⊥
IsExact (enum x) = ⊥
IsExact (any x) = ⊥
IsExact _ = Unit

module _ {F : Type 0} (lib : Floats F) where
  num_iff :
      (v w : Width) (x y : ℤ)
      → Fits v x
      → Fits w y
      → (equal_value lib (num v x) (num w y) ≡ some true) ↔ (◌≡◌ {A = Value F} (num v x) (num w y))
  unfolding equal_value number is_list format
  num_iff int8 int8 x y p q = ground (arith, compare_num_iff int8 x y)
  num_iff v w x y p q = ground (arith, compare_num_iff v x y)

  num_list_iff :
      (v w : Width) (x y : List ℤ)
      → (equal_value lib (num_list v x) (num_list w y) ≡ some true)
        ↔ (◌≡◌ {A = Value F} (num_list v x) (num_list w y))
  unfolding equal_value number is_list format
  num_list_iff int8 int8 x y = ground (arith, all_equal_iff eq_ℤ eq_ℤ_iff x y)
  num_list_iff v w x y = ground (arith, all_equal_iff eq_ℤ eq_ℤ_iff x y)

  -- `Equal` of two exact values holds exactly when they are the same value.
  pub equal_value_iff :
      (a b : Value F) → IsExact a → IsExact b → (equal_value lib a b ≡ some true) ↔ (a ≡ b)
  unfolding equal_value number is_list format
  equal_value_iff (num v x) (num w y) p q = num_iff v w x y p q
  equal_value_iff (num_list v x) (num_list w y) p q = num_list_iff v w x y
  equal_value_iff (string x) (string y) p q = ground (arith, compare_bytes_iff x y)
  equal_value_iff (ident_ref x) (ident_ref y) p q = ground (arith, compare_ident_iff x y)
  equal_value_iff (bool x) (bool y) p q = ground arith
  equal_value_iff (string_list x) (string_list y) p q =
      ground (arith, all_equal_iff bytes_eq bytes_eq_iff x y)
  equal_value_iff (bool_list x) (bool_list y) p q =
      ground (arith, all_equal_iff eq_bool eq_bool_iff x y)
  equal_value_iff (enum_list x) (enum_list y) p q =
      ground (arith, all_equal_iff eq_enum eq_enum_iff x y)
  equal_value_iff (ident_ref_list x) (ident_ref_list y) p q =
      ground (arith, all_equal_iff eq_ident eq_ident_iff x y)
  equal_value_iff _ _ p q = ground arith

  equal_vals_loop_iff :
      (a b : List (Value F))
      → All IsExact a
      → All IsExact b
      → length a ≡ length b
      → (equal_vals_loop lib a b ≡ some true) ↔ (a ≡ b)
  unfolding equal_vals_loop
  equal_vals_loop_iff [] [] p q h = ground arith
  equal_vals_loop_iff [] (y ∷ b) p q h = absurd (omega arith)
  equal_vals_loop_iff (x ∷ a) [] p q h = absurd (omega arith)
  equal_vals_loop_iff (x ∷ a) (y ∷ b) p q h =
      ground (arith, equal_value_iff x y p.0 q.0, equal_vals_loop_iff a b p.1 q.1 (omega arith))

  length_of_eq : (a b : List (Value F)) → a ≡ b → length a ≡ length b
  length_of_eq a b e = ap length e

  -- `EqualVals` of two lists of exact values holds exactly when they are the same list.
  pub equal_vals_iff :
      (a b : List (Value F))
      → All IsExact a
      → All IsExact b
      → (equal_vals lib a b ≡ some true) ↔ (a ≡ b)
  unfolding equal_vals
  equal_vals_iff a b p q = ground (arith, equal_vals_loop_iff a b p q, length_of_eq a b)
