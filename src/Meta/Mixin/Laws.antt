-- ===== src/Meta/Mixin/Laws.antt =====
-- meta/core.go: what a type has that is derived from typedefs in several steps.
use c2g.Common.{◌≡◌, refl, ap, ◌∙◌, List, [], ◌∷◌, ◌++◌, Option, none, some, map}
use c2g.Meta.Mixin.{TypeDef, if_empty, if_nil, joined, mixin}

-- The first list that is not empty.
nearest_list : {A : Type 0} → List (List A) → List A
nearest_list [] = []
nearest_list ([] ∷ ls) = nearest_list ls
nearest_list ((x ∷ l) ∷ ls) = x ∷ l

-- The first that is given.
nearest : {A : Type 0} → List (Option A) → Option A
nearest [] = none
nearest (none ∷ os) = nearest os
nearest (some x ∷ os) = some x

-- All that is given, in order; none where nothing is.
gathered : {A : Type 0} → List (Option (List A)) → Option (List A)
gathered [] = none
gathered (none ∷ os) = gathered os
gathered (some xs ∷ os) = elim (gathered os) [ none ↦ some xs | some ys ↦ some (xs ++ ys) ]

-- A type and those it is derived from, the nearest first: each is completed before the type that is
-- derived from it, as findTypedef compiles the typedef that it finds.
abbrev pub chain :
    {P R E I T : Type 0} → TypeDef P R E I T → List (TypeDef P R E I T) → TypeDef P R E I T
chain t [] = t
chain t (b ∷ bs) = mixin (chain b bs) t

-- The last of a type and those it is derived from.
abbrev pub root {ℓ} : {A : Type ℓ} → A → List A → A
root t [] = t
root t (b ∷ bs) = root b bs

module _ {P R E I T : Type 0} where
  -- Field by field: patterns, path, enums, base, members of a union and identity are those of the
  -- nearest type that sets them; ranges and lengths are those of all types, the nearest first; the
  -- format is that of the type at the root.
  pub resolved : TypeDef P R E I T → List (TypeDef P R E I T) → TypeDef P R E I T
  unfolding nearest_list nearest gathered
  resolved t bs = record {
    patterns = nearest_list (map (λ (d : TypeDef P R E I T). d.patterns) (t ∷ bs));
    path = nearest_list (map (λ (d : TypeDef P R E I T). d.path) (t ∷ bs));
    ranges = gathered (map (λ (d : TypeDef P R E I T). d.ranges) (t ∷ bs));
    enums = nearest (map (λ (d : TypeDef P R E I T). d.enums) (t ∷ bs));
    base = nearest_list (map (λ (d : TypeDef P R E I T). d.base) (t ∷ bs));
    union_types = nearest (map (λ (d : TypeDef P R E I T). d.union_types) (t ∷ bs));
    lengths = gathered (map (λ (d : TypeDef P R E I T). d.lengths) (t ∷ bs));
    identity = nearest (map (λ (d : TypeDef P R E I T). d.identity) (t ∷ bs));
    format = (root t bs).format;
  }

if_empty-nearest :
    {A : Type 0} (x : List A) (ls : List (List A))
    → if_empty (nearest_list ls) x ≡ nearest_list (x ∷ ls)
unfolding nearest_list
if_empty-nearest [] ls = refl
if_empty-nearest (a ∷ x) ls = refl

if_nil-nearest :
    {A : Type 0} (x : Option A) (os : List (Option A)) → if_nil (nearest os) x ≡ nearest (x ∷ os)
unfolding nearest
if_nil-nearest none os = refl
if_nil-nearest (some a) os = refl

joined-gathered :
    {A : Type 0} (x : Option (List A)) (os : List (Option (List A)))
    → joined (gathered os) x ≡ gathered (x ∷ os)
unfolding gathered
joined-gathered {A} none os = refl
joined-gathered {A} (some xs) os = given (gathered os)
  where
    given :
        (o : Option (List A))
        → joined o (some xs) ≡ elim o [ none ↦ some xs | some ys ↦ some (xs ++ ys) ]
    given none = refl
    given (some ys) = refl

nearest_list-one : {A : Type 0} (x : List A) → x ≡ nearest_list (x ∷ [])
unfolding nearest_list
nearest_list-one [] = refl
nearest_list-one (a ∷ x) = refl

nearest-one : {A : Type 0} (x : Option A) → x ≡ nearest (x ∷ [])
unfolding nearest
nearest-one none = refl
nearest-one (some a) = refl

gathered-one : {A : Type 0} (x : Option (List A)) → x ≡ gathered (x ∷ [])
unfolding gathered
gathered-one none = refl
gathered-one (some a) = refl

module _ {P R E I T : Type 0} where
  resolved-one : (t : TypeDef P R E I T) → t ≡ resolved t []
  unfolding resolved
  resolved-one t = λ i. record {
    patterns = nearest_list-one t.patterns i;
    path = nearest_list-one t.path i;
    ranges = gathered-one t.ranges i;
    enums = nearest-one t.enums i;
    base = nearest_list-one t.base i;
    union_types = nearest-one t.union_types i;
    lengths = gathered-one t.lengths i;
    identity = nearest-one t.identity i;
    format = t.format;
  }

  mixin-resolved :
      (t b : TypeDef P R E I T) (bs : List (TypeDef P R E I T))
      → mixin (resolved b bs) t ≡ resolved t (b ∷ bs)
  unfolding mixin resolved
  mixin-resolved t b bs = λ i. record {
    patterns = if_empty-nearest t.patterns (map (λ (d : TypeDef P R E I T). d.patterns) (b ∷ bs)) i;
    path = if_empty-nearest t.path (map (λ (d : TypeDef P R E I T). d.path) (b ∷ bs)) i;
    ranges = joined-gathered t.ranges (map (λ (d : TypeDef P R E I T). d.ranges) (b ∷ bs)) i;
    enums = if_nil-nearest t.enums (map (λ (d : TypeDef P R E I T). d.enums) (b ∷ bs)) i;
    base = if_empty-nearest t.base (map (λ (d : TypeDef P R E I T). d.base) (b ∷ bs)) i;
    union_types =
        if_nil-nearest t.union_types (map (λ (d : TypeDef P R E I T). d.union_types) (b ∷ bs)) i;
    lengths = joined-gathered t.lengths (map (λ (d : TypeDef P R E I T). d.lengths) (b ∷ bs)) i;
    identity = if_nil-nearest t.identity (map (λ (d : TypeDef P R E I T). d.identity) (b ∷ bs)) i;
    format = (root b bs).format;
  }

  -- A type that is derived from others in steps ends up, field by field, with the patterns, the path,
  -- the enums, the base, the members and the identity of the nearest type that sets them, with the
  -- ranges and the lengths of all of them, its own first, and with the format of the type at the root.
  pub chain-resolved :
      (t : TypeDef P R E I T) (bs : List (TypeDef P R E I T)) → chain t bs ≡ resolved t bs
  chain-resolved t [] = resolved-one t
  chain-resolved t (b ∷ bs) =
      ap (λ base. mixin base t) (chain-resolved b bs) ∙ mixin-resolved t b bs
