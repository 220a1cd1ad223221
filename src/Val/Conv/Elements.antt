-- ===== src/Val/Conv/Elements.antt =====
-- A list is converted element by element.
use c2g.Common.{◌≡◌, refl, List, [], ◌∷◌, map, Option, none, some, Result, ok, err, ◌>>=◌}
use c2g.Val.Dyn.{Dyn, Dyns, nil, done, more, anys, Floats, ConvError}
use c2g.Val.Format.{
  Kind, scalar, list_of, fmt_bool, fmt_decimal64, fmt_int8, fmt_int16, fmt_int32, fmt_int64,
  fmt_string, fmt_uint8, fmt_uint16, fmt_uint32, fmt_uint64,
}
use c2g.Val.Value.{
  Value, string, string_list, bool, bool_list, num, num_list, decimal64, decimal64_list, int8,
  int16, int32, int64, uint8, uint16, uint32, uint64,
}
use c2g.Val.Conv.Scalars.{
  to_int8, to_uint8, to_int16, to_uint16, to_int32, to_uint32, to_int64, to_uint64, to_decimal64,
  to_bool, to_string,
}
use c2g.Val.Value.Items.{items}
use c2g.Val.Conv.Slices.{
  traverse_dyns, to_int8_list, to_uint8_list, to_int16_list, to_uint16_list, to_int32_list,
  to_uint32_list, to_int64_list, to_uint64_list, to_decimal64_list, to_bool_list, to_string_list,
}
use c2g.Val.Conv.{conv, conv_to, wrap}

-- Position by position, the conversion of the element gives the value.
abbrev pub Each :
    {F : Type 0} → (Dyn F → Result ConvError (Option (Value F))) → Dyns F → List (Value F) → Type 0
Each f done [] = Unit
Each f (more x xs) (y ∷ ys) = (f x ≡ ok (some y)) × Each f xs ys
Each f _ _ = ⊥

cons_inversion :
    {A : Type 0} (r : Result ConvError A) (rs : Result ConvError (List A)) (ys : List A)
    → (r >>= λ y. rs >>= λ tail. ok (y ∷ tail)) ≡ ok ys
    → (y : A) × (tail : List A) × (r ≡ ok y) × (rs ≡ ok tail) × (ys ≡ y ∷ tail)
cons_inversion (ok y) (ok tail) ys h = (y, tail, refl, refl, cc)
cons_inversion (ok y) (err e) ys h = cc
cons_inversion (err e) rs ys h = cc

traverse_dyns-Each :
    {F A : Type 0} (c : A → Value F) (f : Dyn F → Result ConvError A) (xs : Dyns F) (ys : List A)
    → traverse_dyns f xs ≡ ok ys
    → Each (λ x. wrap c (f x)) xs (map c ys)
unfolding traverse_dyns
traverse_dyns-Each c f done [] h = tt
traverse_dyns-Each c f done (y ∷ ys) h = cc
traverse_dyns-Each c f (more x xs) ys h =
    let (y, tail, one, rest, shape) = cons_inversion (f x) (traverse_dyns f xs) ys h in
    rw shape (rw one refl, traverse_dyns-Each c f xs tail rest)

-- The items of a value are the conversions of the elements.
abbrev pub ItemsEach :
    {F : Type 0}
    → (Dyn F → Result ConvError (Option (Value F)))
    → Dyns F
    → Option (List (Value F))
    → Type 0
ItemsEach f xs none = ⊥
ItemsEach f xs (some ys) = Each f xs ys

wrap-ItemsEach :
    {F A : Type 0} (c : A → Value F) (cs : List A → Value F) (f : Dyn F → Result ConvError A)
    (xs : Dyns F) (v : Value F)
    → ((ys : List A) → items (cs ys) ≡ some (map c ys))
    → wrap cs (traverse_dyns f xs) ≡ ok (some v)
    → ItemsEach (λ x. wrap c (f x)) xs (items v)
wrap-ItemsEach {F} {A} c cs f xs v h e = go (traverse_dyns f xs) refl e
  where
    go :
        (r : Result ConvError (List A))
        → traverse_dyns f xs ≡ r
        → wrap cs r ≡ ok (some v)
        → ItemsEach (λ x. wrap c (f x)) xs (items v)
    go (ok ys) q e' = let same : v ≡ cs ys = cc in rw (same, h ys) (traverse_dyns-Each c f xs ys q)
    go (err _) q e' = cc

-- No element is nil.
abbrev pub HasNoNil : {F : Type 0} → Dyns F → Type 0
HasNoNil done = Unit {0}
HasNoNil (more nil xs) = ⊥
HasNoNil (more x xs) = HasNoNil xs

module _ {F : Type 0} (lib : Floats F) where
  -- What the switch of `Conv` does, which looks at no nil element.
  conv_to_list-Each :
      (k : Kind) (xs : Dyns F) (v : Value F)
      → conv_to lib (list_of k) (anys xs) ≡ ok (some v)
      → ItemsEach (conv_to lib (scalar k)) xs (items v)
  unfolding conv_to items to_int8_list to_uint8_list to_int16_list to_uint16_list to_int32_list
      to_uint32_list to_int64_list to_uint64_list to_decimal64_list to_bool_list to_string_list
  conv_to_list-Each fmt_bool xs v e =
      wrap-ItemsEach bool bool_list (to_bool lib) xs v (λ ys. refl) e
  conv_to_list-Each fmt_string xs v e =
      wrap-ItemsEach string string_list (to_string lib) xs v (λ ys. refl) e
  conv_to_list-Each fmt_decimal64 xs v e =
      wrap-ItemsEach decimal64 decimal64_list (to_decimal64 lib) xs v (λ ys. refl) e
  conv_to_list-Each fmt_int8 xs v e =
      wrap-ItemsEach (num int8) (num_list int8) (to_int8 lib) xs v (λ ys. refl) e
  conv_to_list-Each fmt_int16 xs v e =
      wrap-ItemsEach (num int16) (num_list int16) (to_int16 lib) xs v (λ ys. refl) e
  conv_to_list-Each fmt_int32 xs v e =
      wrap-ItemsEach (num int32) (num_list int32) (to_int32 lib) xs v (λ ys. refl) e
  conv_to_list-Each fmt_int64 xs v e =
      wrap-ItemsEach (num int64) (num_list int64) (to_int64 lib) xs v (λ ys. refl) e
  conv_to_list-Each fmt_uint8 xs v e =
      wrap-ItemsEach (num uint8) (num_list uint8) (to_uint8 lib) xs v (λ ys. refl) e
  conv_to_list-Each fmt_uint16 xs v e =
      wrap-ItemsEach (num uint16) (num_list uint16) (to_uint16 lib) xs v (λ ys. refl) e
  conv_to_list-Each fmt_uint32 xs v e =
      wrap-ItemsEach (num uint32) (num_list uint32) (to_uint32 lib) xs v (λ ys. refl) e
  conv_to_list-Each fmt_uint64 xs v e =
      wrap-ItemsEach (num uint64) (num_list uint64) (to_uint64 lib) xs v (λ ys. refl) e
  conv_to_list-Each _ xs v e = cc

  Each-conv :
      (k : Kind) (xs : Dyns F) (ys : List (Value F))
      → HasNoNil xs
      → Each (conv_to lib (scalar k)) xs ys
      → Each (conv lib (scalar k)) xs ys
  unfolding conv
  Each-conv k done [] n h = tt
  Each-conv k done (y ∷ ys) n h = absurd h
  Each-conv k (more nil xs) ys n h = absurd n
  Each-conv k (more _ xs) [] n h = absurd h
  Each-conv k (more _ xs) (y ∷ ys) n h = (h.0, Each-conv k xs ys n h.1)

  ItemsEach-conv :
      (k : Kind) (xs : Dyns F) (o : Option (List (Value F)))
      → HasNoNil xs
      → ItemsEach (conv_to lib (scalar k)) xs o
      → ItemsEach (conv lib (scalar k)) xs o
  ItemsEach-conv k xs none n h = absurd h
  ItemsEach-conv k xs (some ys) n h = Each-conv k xs ys n h

  -- Where `Conv` makes a list of a `[]interface{}` that holds no nil, the items of the list are what
  -- `Conv` makes of the elements in the format of one item, in order and as many.
  pub conv_list-Each :
      (k : Kind) (xs : Dyns F) (v : Value F)
      → HasNoNil xs
      → conv lib (list_of k) (anys xs) ≡ ok (some v)
      → ItemsEach (conv lib (scalar k)) xs (items v)
  unfolding conv
  conv_list-Each k xs v n e = ItemsEach-conv k xs (items v) n (conv_to_list-Each k xs v e)
