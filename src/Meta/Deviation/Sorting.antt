-- ===== src/Meta/Deviation/Sorting.antt =====
-- A sort of texts, for the tests: it does what sort.Strings promises.
use c2g.Common.{
  ◌≡◌, refl, sym, ap, ◌∙◌, List, [], ◌∷◌, Bytes, Bool, true, false, arith, ltb, ◌==◌, ◌||◌, ◌&&◌,
  Bool-cases, inl, inr,
}
use mathlib.Core.List.{Perm, foldr}
use mathlib.Core.List.Perm
use c2g.Meta.Deviation.Delete.{IsSort}

-- The order of the bytes, and a sort by it.
abbrev pub leb_bytes : Bytes → Bytes → Bool
leb_bytes [] y = true
leb_bytes (a ∷ x) [] = false
leb_bytes (a ∷ x) (b ∷ y) = ltb a b || ((a == b) && leb_bytes x y)

leb_bytes_total : (x y : Bytes) → leb_bytes x y ≡ false → leb_bytes y x ≡ true
leb_bytes_total [] y e = cc
leb_bytes_total (a ∷ x) [] e = refl
leb_bytes_total (a ∷ x) (b ∷ y) e = ground (arith, leb_bytes_total x y)

leb_bytes_antisym : (x y : Bytes) → leb_bytes x y ≡ true → leb_bytes y x ≡ true → x ≡ y
leb_bytes_antisym [] [] e f = refl
leb_bytes_antisym [] (b ∷ y) e f = cc
leb_bytes_antisym (a ∷ x) [] e f = cc
leb_bytes_antisym (a ∷ x) (b ∷ y) e f = ground (arith, leb_bytes_antisym x y)

leb_bytes_trans :
    (x y z : Bytes) → leb_bytes x y ≡ true → leb_bytes y z ≡ true → leb_bytes x z ≡ true
leb_bytes_trans [] y z e f = refl
leb_bytes_trans (a ∷ x) [] z e f = cc
leb_bytes_trans (a ∷ x) (b ∷ y) [] e f = cc
leb_bytes_trans (a ∷ x) (b ∷ y) (c ∷ z) e f = ground (arith, leb_bytes_trans x y z)

unfoldable pub insert : Bytes → List Bytes → List Bytes
insert x [] = x ∷ []
insert x (y ∷ l) = elim (leb_bytes x y) [ true ↦ x ∷ y ∷ l | false ↦ y ∷ insert x l ]

unfoldable pub sorted : List Bytes → List Bytes
unfolding insert
sorted [] = []
sorted (x ∷ l) = insert x (sorted l)

insert_here : (x y : Bytes) (l : List Bytes) → leb_bytes x y ≡ true → insert x (y ∷ l) ≡ x ∷ y ∷ l
unfolding insert
insert_here x y l e = rw (e, insert) refl

insert_later :
    (x y : Bytes) (l : List Bytes) → leb_bytes x y ≡ false → insert x (y ∷ l) ≡ y ∷ insert x l
unfolding insert
insert_later x y l e = rw (e, insert) refl

insert_nil : (x : Bytes) → insert x [] ≡ x ∷ []
unfolding insert
insert_nil x = refl

-- Two texts in front of a list that they both precede.
insert_front :
    (x y : Bytes) (l : List Bytes)
    → insert x l ≡ x ∷ l
    → insert y l ≡ y ∷ l
    → insert x (insert y l) ≡ insert y (insert x l)
insert_front x y l p q = elim (Bool-cases (leb_bytes x y)) [
  | inl e ↦ elim (Bool-cases (leb_bytes y x)) [
    | inl f ↦ rw (leb_bytes_antisym x y e f) refl
    | inr f ↦ cc (p, q, insert_here x y l e, insert_later y x l f)
  ]
  | inr e ↦ cc (p, q, insert_later x y l e, insert_here y x l (leb_bytes_total x y e))
]

not_leb : (x y z : Bytes) → leb_bytes x z ≡ true → leb_bytes y z ≡ false → leb_bytes y x ≡ false
not_leb x y z e f = elim (Bool-cases (leb_bytes y x)) [
  | inr g ↦ g
  | inl g ↦ let h = leb_bytes_trans y x z g e in cc
]

insert_comm : (x y : Bytes) (l : List Bytes) → insert x (insert y l) ≡ insert y (insert x l)
insert_comm x y [] = insert_front x y [] (insert_nil x) (insert_nil y)
insert_comm x y (z ∷ l) = elim (Bool-cases (leb_bytes x z)) [
  | inl e ↦ elim (Bool-cases (leb_bytes y z)) [
    | inl f ↦ insert_front x y (z ∷ l) (insert_here x z l e) (insert_here y z l f)
    | inr f ↦ cc (
      insert_here x z l e,
      insert_later y z l f,
      insert_here x z (insert y l) e,
      insert_later y x (z ∷ l) (not_leb x y z e f),
    )
  ]
  | inr e ↦ elim (Bool-cases (leb_bytes y z)) [
    | inl f ↦ cc (
      insert_later x z l e,
      insert_here y z l f,
      insert_here y z (insert x l) f,
      insert_later x y (z ∷ l) (not_leb y x z f e),
    )
    | inr f ↦ cc (
      insert_later x z l e,
      insert_later y z l f,
      insert_later x z (insert y l) e,
      insert_later y z (insert x l) f,
      insert_comm x y l,
    )
  ]
]

insert-Perm : (x : Bytes) (l : List Bytes) → Perm (insert x l) (x ∷ l)
insert-Perm x [] = rw (insert_nil x) Perm.rfl
insert-Perm x (y ∷ l) = elim (Bool-cases (leb_bytes x y)) [
  | inl e ↦ rw (insert_here x y l e) Perm.rfl
  | inr e ↦ rw (insert_later x y l e) (Perm.trans (Perm.cons y (insert-Perm x l)) (Perm.swap x y l))
]

sorted-Perm : (l : List Bytes) → Perm (sorted l) l
unfolding sorted
sorted-Perm [] = Perm.rfl
sorted-Perm (x ∷ l) = Perm.trans (insert-Perm x (sorted l)) (Perm.cons x (sorted-Perm l))

sorted-foldr : (l : List Bytes) → sorted l ≡ foldr insert [] l
unfolding sorted
sorted-foldr [] = refl
sorted-foldr (x ∷ l) = ap (insert x) (sorted-foldr l)

pub sorted-IsSort : IsSort sorted
sorted-IsSort = record {
  permutes = sorted-Perm;
  canonical = λ k l p.
      sorted-foldr k ∙ Perm.foldr-eq (hlevel) insert insert_comm p [] ∙ sym (sorted-foldr l);
}
