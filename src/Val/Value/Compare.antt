-- ===== src/Val/Value/Compare.antt =====
-- val/types.go: the methods `Compare`; val/util.go: `Equal`, `EqualVals` and `CompareVals`.
-- `none` is a panic: a failed type assertion, or an index out of range.
use c2g.Common.{
  zero, suc, ◌^◌, Bool, true, false, ◌&&◌, List, [], ◌∷◌, Bytes, bytes_eq, Option, none, some,
  length, ltb, ◌==◌, if◌then◌else◌, not,
}
use c2g.Common.Int.{ℤ, pos, negsuc, ◌-ℤ◌, ltb_ℤ, wrap_signed, wrap_unsigned}
use c2g.Val.Dyn.{Floats}
use c2g.Val.Format.{number, is_list}
use c2g.Val.Value.{
  Width, int8, int16, int32, int64, uint8, uint16, uint32, uint64, Enum, IdentRef, Value, string,
  string_list, bool, bool_list, num, num_list, decimal64, decimal64_list, enum, enum_list,
  ident_ref, ident_ref_list, format,
}
use c2g.Val.Value.Enums.{eq_ℤ}

-- `strings.Compare`
unfoldable pub compare_bytes : Bytes → Bytes → ℤ
compare_bytes [] [] = pos 0
compare_bytes [] (_ ∷ _) = negsuc 0
compare_bytes (_ ∷ _) [] = pos 1
compare_bytes (x ∷ xs) (y ∷ ys) =
    if ltb x y then negsuc 0 else if ltb y x then pos 1 else compare_bytes xs ys

unfoldable pub compare_bool : Bool → Bool → ℤ
compare_bool true true = pos 0
compare_bool false false = pos 0
compare_bool true false = pos 1
compare_bool false true = negsuc 0

-- `if c < 0 { return -1 } else if c > 0 { return 1 }; return 0`
abbrev sign : ℤ → ℤ
sign (pos zero) = pos 0
sign (pos (suc n)) = pos 1
sign (negsuc n) = negsuc 0

-- The subtraction is made in the value's own type, signed or unsigned.
unfoldable pub compare_num : Width → ℤ → ℤ → ℤ
compare_num int8 x y = wrap_signed (2 ^ 7) (x -ℤ y)
compare_num int16 x y = wrap_signed (2 ^ 15) (x -ℤ y)
compare_num int32 x y = wrap_signed (2 ^ 63) (x -ℤ y)
compare_num int64 x y = sign (wrap_signed (2 ^ 63) (x -ℤ y))
compare_num uint8 x y = sign (wrap_unsigned (2 ^ 8) (x -ℤ y))
compare_num uint16 x y = sign (wrap_unsigned (2 ^ 16) (x -ℤ y))
compare_num uint32 x y = sign (wrap_unsigned (2 ^ 64) (x -ℤ y))
compare_num uint64 x y = sign (wrap_unsigned (2 ^ 64) (x -ℤ y))

-- `IdentRef.Compare`: by the base, then by the label.
unfoldable pub compare_ident : IdentRef → IdentRef → ℤ
compare_ident x y =
    let c = compare_bytes x.base y.base in
    if eq_ℤ c (pos 0) then compare_bytes x.label y.label else c

-- The integer types are told apart by the type assertion `b.Value().(int8)` and its like.
unfoldable pub same_width : Width → Width → Bool
same_width v w = number (format {F = ⊥} (num v (pos 0))) == number (format {F = ⊥} (num w (pos 0)))

-- `a.(Comparable).Compare(b.(Comparable))`
unfoldable pub compare_value : {F : Type 0} → Floats F → Value F → Value F → Option ℤ
unfolding compare_num same_width compare_ident compare_bool
compare_value lib (string x) (string y) = some (compare_bytes x y)
compare_value lib (bool x) (bool y) = some (compare_bool x y)
compare_value lib (num v x) (num w y) = if same_width v w then some (compare_num v x y) else none
compare_value lib (decimal64 x) (decimal64 y) = some (sign (lib.sign_of_difference x y))
compare_value lib (enum x) (enum y) = some (wrap_signed (2 ^ 63) (x.id -ℤ y.id))
compare_value lib (ident_ref x) (ident_ref y) = some (compare_ident x y)
compare_value lib _ _ = none

-- `reflect.DeepEqual` of two slices, by equality of the elements
abbrev pub all_equal {ℓ} : {A : Type ℓ} → (A → A → Bool) → List A → List A → Bool
all_equal eq [] [] = true
all_equal eq (x ∷ xs) (y ∷ ys) = eq x y && all_equal eq xs ys
all_equal eq _ _ = false

abbrev pub eq_bool : Bool → Bool → Bool
eq_bool true b = b
eq_bool false b = not b

abbrev pub eq_enum : Enum → Enum → Bool
eq_enum x y = eq_ℤ x.id y.id && bytes_eq x.label y.label

abbrev pub eq_ident : IdentRef → IdentRef → Bool
eq_ident x y = bytes_eq x.base y.base && bytes_eq x.label y.label

-- `reflect.DeepEqual(a.Value(), b.Value())` of two values of one list format. A nil slice, which
-- DeepEqual tells from an empty one, is no value of its own here.
unfoldable pub deep_equal : {F : Type 0} → Floats F → Value F → Value F → Bool
deep_equal lib (string_list x) (string_list y) = all_equal bytes_eq x y
deep_equal lib (bool_list x) (bool_list y) = all_equal eq_bool x y
deep_equal lib (num_list v x) (num_list w y) = all_equal eq_ℤ x y
deep_equal lib (decimal64_list x) (decimal64_list y) = all_equal lib.equal_float x y
deep_equal lib (enum_list x) (enum_list y) = all_equal eq_enum x y
deep_equal lib (ident_ref_list x) (ident_ref_list y) = all_equal eq_ident x y
deep_equal lib _ _ = false

abbrev is_zero : Option ℤ → Option Bool
is_zero none = none
is_zero (some c) = some (eq_ℤ c (pos 0))

-- `Equal` of two values that are not nil
unfoldable pub equal_value : {F : Type 0} → Floats F → Value F → Value F → Option Bool
unfolding compare_value deep_equal
equal_value lib a b =
    if not (number (format a) == number (format b))
    then some false
    else if is_list (number (format a))
    then some (deep_equal lib a b)
    else is_zero (compare_value lib a b)

-- `Equal`
unfoldable pub equal : {F : Type 0} → Floats F → Option (Value F) → Option (Value F) → Option Bool
unfolding equal_value
equal lib none none = some true
equal lib none (some b) = some false
equal lib (some a) none = some false
equal lib (some a) (some b) = equal_value lib a b

-- The loop of `EqualVals`.
unfoldable pub equal_vals_loop :
    {F : Type 0} → Floats F → List (Value F) → List (Value F) → Option Bool
equal_vals_loop lib (a ∷ a') (b ∷ b') =
    let rest = equal_vals_loop lib a' b' in
    elim (equal_value lib a b) [ none ↦ none | some false ↦ some false | some true ↦ rest ]
equal_vals_loop lib _ _ = some true

-- `EqualVals`
unfoldable pub equal_vals : {F : Type 0} → Floats F → List (Value F) → List (Value F) → Option Bool
unfolding equal_vals_loop
equal_vals lib a b = if length a == length b then equal_vals_loop lib a b else some false

-- `CompareVals`: the first comparison that is not 0. `b[i]` is out of range where `b` is shorter.
unfoldable pub compare_vals : {F : Type 0} → Floats F → List (Value F) → List (Value F) → Option ℤ
compare_vals lib [] b = some (pos 0)
compare_vals lib (v ∷ a) [] = none
compare_vals lib (v ∷ a) (w ∷ b) =
    let rest = compare_vals lib a b in
    elim (compare_value lib v w) [
      | none ↦ none
      | some c ↦ if ltb_ℤ c (pos 0) then some c else if ltb_ℤ (pos 0) c then some c else rest
    ]
