-- ===== src/Node/Values/Derived.antt =====
-- node/value.go and meta/core.go: which identities the value of an identityref can name.
use c2g.Common.{
  ◌≡◌, ◌↔◌, ◌⊎◌, inl, inr, refl, sym, ◌∙◌, List, [], ◌∷◌, Bytes, bytes_eq_iff, bytes_eq_refl,
  Option, none, some, ok, arith,
}
use c2g.Val.Dyn.{Dyn, Floats}
use c2g.Node.Values.{
  Identity, identity, Identities, last, next, ident, derived_recursive, derived_each, derived,
  lookup, ident_found, sprint, to_ident_ref,
}

-- `x` is the name of `y`, or of an identity derived from it, directly or not.
mutual
  pub data Names (x : Bytes) : Identity → Type 0 where
    self : (z : Bytes) (ys : Identities) → z ≡ x → Names x (identity z ys)
    below : (z : Bytes) (ys : Identities) → NamesOne x ys → Names x (identity z ys)

  pub data NamesOne (x : Bytes) : Identities → Type 0 where
    here : (y : Identity) (ys : Identities) → Names x y → NamesOne x (next y ys)
    there : (y : Identity) (ys : Identities) → NamesOne x ys → NamesOne x (next y ys)

-- A map has an identity of this name for this key.
abbrev Has : Bytes → List (Bytes × Identity) → Type 0
Has x all = (y : Identity) × (lookup x all ≡ some y) × (ident y ≡ x)

Has-here :
    (x : Bytes) (y : Identity) (all : List (Bytes × Identity))
    → ident y ≡ x
    → Has x ((ident y, y) ∷ all)
Has-here x y all e = (y, rw (e, bytes_eq_refl x) refl, e)

Has-cons-cases :
    (x : Bytes) (y : Identity) (all : List (Bytes × Identity))
    → (ident y ≡ x) ⊎ (lookup x ((ident y, y) ∷ all) ≡ lookup x all)
Has-cons-cases x y all = ground (arith, bytes_eq_iff (ident y) x)

Has-later :
    (x : Bytes) (y : Identity) (all : List (Bytes × Identity))
    → Has x all
    → Has x ((ident y, y) ∷ all)
Has-later x y all (w, e, n) = elim (Has-cons-cases x y all) [
  | inl q ↦ Has-here x y all q
  | inr q ↦ (w, q ∙ e, n)
]

mutual
  unfolding derived_recursive derived_each

  Has-old :
      (x : Bytes) (y : Identity) (all : List (Bytes × Identity))
      → Has x all
      → Has x (derived_recursive y all)
  Has-old x (identity z ys) all h = Has-old_each x ys _ (Has-later x (identity z ys) all h)

  Has-old_each :
      (x : Bytes) (ys : Identities) (all : List (Bytes × Identity))
      → Has x all
      → Has x (derived_each ys all)
  Has-old_each x last all h = h
  Has-old_each x (next y ys) all h = Has-old_each x ys _ (Has-old x y all h)

mutual
  unfolding derived_recursive derived_each

  Has-Names :
      (x : Bytes) (y : Identity) (all : List (Bytes × Identity))
      → Names x y
      → Has x (derived_recursive y all)
  Has-Names x (identity z ys) all (Names.self _ _ e) =
      Has-old_each x ys _ (Has-here x (identity z ys) all e)
  Has-Names x (identity z ys) all (Names.below _ _ h) = Has-NamesOne x ys _ h

  Has-NamesOne :
      (x : Bytes) (ys : Identities) (all : List (Bytes × Identity))
      → NamesOne x ys
      → Has x (derived_each ys all)
  Has-NamesOne x last all h = elim h [ ]
  Has-NamesOne x (next y ys) all (NamesOne.here _ _ h) = Has-old_each x ys _ (Has-Names x y all h)
  Has-NamesOne x (next y ys) all (NamesOne.there _ _ h) = Has-NamesOne x ys _ h

mutual
  unfolding derived_recursive derived_each

  Names-of :
      (x : Bytes) (y : Identity) (all : List (Bytes × Identity))
      → Has x (derived_recursive y all)
      → Names x y ⊎ Has x all
  Names-of x (identity z ys) all h = elim (NamesOne-of x ys _ h) [
    | inl k ↦ inl (Names.below z ys k)
    | inr (w, e, n) ↦ elim (Has-cons-cases x (identity z ys) all) [
      | inl q ↦ inl (Names.self z ys q)
      | inr q ↦ inr (w, sym q ∙ e, n)
    ]
  ]

  NamesOne-of :
      (x : Bytes) (ys : Identities) (all : List (Bytes × Identity))
      → Has x (derived_each ys all)
      → NamesOne x ys ⊎ Has x all
  NamesOne-of x last all h = inr h
  NamesOne-of x (next y ys) all h = elim (NamesOne-of x ys _ h) [
    | inl k ↦ inl (NamesOne.there y ys k)
    | inr k ↦ elim (Names-of x y all k) [ inl m ↦ inl (NamesOne.here y ys m) | inr m ↦ inr m ]
  ]

ident_found-some :
    (base : Identity) (o : Option Identity) (s : Bytes)
    → ident_found base o ≡ some (ok (record { base = ident base; label = s }))
    → (y : Identity) × (o ≡ some y) × (ident y ≡ s)
ident_found-some base none s e = ground arith
ident_found-some base (some y) s e = (y, refl, ground arith)

module _ {F : Type 0} (lib : Floats F) where
  -- The value of an identityref is made exactly of the names of its base and of all identities derived
  -- from it, directly or not, and refers to the base under that name.
  pub to_ident_ref-Names :
      (base : Identity) (v : Dyn F)
      → (to_ident_ref lib base v ≡ some (ok (record { base = ident base; label = sprint lib v })))
        ↔ Names (sprint lib v) base
  unfolding to_ident_ref derived
  to_ident_ref-Names base v = (to (lookup (sprint lib v) (derived base)) refl, from)
    where
      to :
          (o : Option Identity)
          → lookup (sprint lib v) (derived base) ≡ o
          → ident_found base o ≡ some (ok (record { base = ident base; label = sprint lib v }))
          → Names (sprint lib v) base
      to o q e =
          let (y, is, same) = ident_found-some base o (sprint lib v) e in
          elim (Names-of (sprint lib v) base [] (y, q ∙ is, same)) [
            | inl n ↦ n
            | inr (w, k, _) ↦ ground arith
          ]

      from :
          Names (sprint lib v) base
          → to_ident_ref lib base v ≡ some (ok (record { base = ident base; label = sprint lib v }))
      from n = let (y, q, e) = Has-Names (sprint lib v) base [] n in rw (q, e) refl
