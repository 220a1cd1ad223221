-- ===== src/Meta/Mixin.antt =====
-- meta/core.go: `mixin`, which completes a type by what the type it is derived from sets.
pub mod Laws
use c2g.Common.{Bool, List, [], ◌∷◌, ◌++◌, Bytes, Option, none, some}
use c2g.Val.Format.{Format}

-- The fields of `Type` that `mixin` looks at. `P`, `R`, `E`, `I` and `T` stand for patterns, ranges,
-- enums, identities and types; a nil slice is `none`, but for patterns, where it is like an empty one.
pub record TypeDef (P R E I T : Type 0) : Type 0 where
  pub patterns : List P
  pub path : Bytes
  pub ranges : Option (List R)
  pub enums : Option (List E)
  pub base : Bytes
  pub union_types : Option (List T)
  pub lengths : Option (List R)
  pub identity : Option I
  pub format : Format

-- `if len(derived) == 0 { derived = base }`, on lists and on texts
abbrev pub if_empty : {A : Type 0} → List A → List A → List A
if_empty base [] = base
if_empty base (x ∷ xs) = x ∷ xs

-- `if derived == nil { derived = base }`
abbrev pub if_nil : {A : Type 0} → Option A → Option A → Option A
if_nil base none = base
if_nil base (some x) = some x

-- The same, and where both are given, those of the base behind the others.
abbrev pub joined : {A : Type 0} → Option (List A) → Option (List A) → Option (List A)
joined base none = base
joined none (some xs) = some xs
joined (some ys) (some xs) = some (xs ++ ys)

-- `mixin`
unfoldable pub mixin :
    {P R E I T : Type 0} → TypeDef P R E I T → TypeDef P R E I T → TypeDef P R E I T
mixin base derived = record {
  patterns = if_empty base.patterns derived.patterns;
  path = if_empty base.path derived.path;
  ranges = joined base.ranges derived.ranges;
  enums = if_nil base.enums derived.enums;
  base = if_empty base.base derived.base;
  union_types = if_nil base.union_types derived.union_types;
  lengths = joined base.lengths derived.lengths;
  identity = if_nil base.identity derived.identity;
  format = base.format;
}
