-- ===== src/Node/Path/Laws.antt =====
-- What the comparisons of paths look at.
use c2g.Common.{
  ◌≡◌, refl, Bool, true, false, [], ◌∷◌, Bytes, Option, none, some, length, ◌==◌, All, arith, map,
  length-map,
}
use mathlib.Core.Path.{ap₂}
use c2g.Val.Dyn.{Floats}
use c2g.Node.Path.{Segment, NodePath, equal_from, equal_no_key, equal, equal_segment}

-- A segment of some definition.
abbrev pub HasMeta : {F : Type 0} → Segment F → Type 0
HasMeta s = (ident : Bytes) × (s.meta ≡ some ident)

abbrev pub rename_segment : {F : Type 0} → (Segment F → Bytes) → Segment F → Segment F
rename_segment f s = record s { meta = some (f s) }

-- The same path under other identifiers.
abbrev pub rename : {F : Type 0} → (Segment F → Bytes) → NodePath F → NodePath F
rename f b = map (rename_segment f) b

module _ {F : Type 0} (lib : Floats F) where
  equal_from-HasMeta : (a b : NodePath F) → All HasMeta a → equal_from lib false a b ≡ some true
  unfolding equal_from
  equal_from-HasMeta [] b h = refl
  equal_from-HasMeta (x ∷ a) [] h = refl
  equal_from-HasMeta (x ∷ a) (y ∷ b) h = rw (h.0.1, equal_from-HasMeta a b h.1)

  -- `EqualNoKey` of paths whose segments have definitions compares their lengths and nothing else.
  pub equal_no_key-length :
      (a b : NodePath F) → All HasMeta a → equal_no_key lib a b ≡ some (length a == length b)
  unfolding equal_no_key
  equal_no_key-length a b h = rw (equal_from-HasMeta a b h) (ground arith)

  equal_segment-rename :
      (f : Segment F → Bytes) (k : Bool) (x y : Segment F)
      → HasMeta x
      → equal_segment lib x (rename_segment f y) k ≡ equal_segment lib x y k
  unfolding equal_segment
  equal_segment-rename f k x y h = rw h.1

  equal_from-rename :
      (f : Segment F → Bytes) (k : Bool) (a b : NodePath F)
      → All HasMeta a
      → equal_from lib k a (rename f b) ≡ equal_from lib k a b
  unfolding equal_from
  equal_from-rename f k [] b h = refl
  equal_from-rename f k (x ∷ a) [] h = refl
  equal_from-rename f k (x ∷ a) (y ∷ b) h =
      ap₂
        (λ (first rest : Option Bool). elim first [
          | none ↦ none
          | some false ↦ some false
          | some true ↦ rest
        ])
        (equal_segment-rename f k x y h.0) (equal_from-rename f k a b h.1)

  -- `Equal` does not look at the identifiers: the second path may have any others.
  pub equal-rename :
      (f : Segment F → Bytes) (a b : NodePath F)
      → All HasMeta a
      → equal lib a (rename f b) ≡ equal lib a b
  unfolding equal
  equal-rename f a b h = rw (length-map b (rename_segment f), equal_from-rename f true a b h)
