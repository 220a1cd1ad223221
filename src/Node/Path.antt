-- ===== src/Node/Path.antt =====
-- node/path.go. A path is a list, its last segment first and each followed by its parents; nil is
-- the empty list. `none` is a panic: a method of a nil `meta` or of a nil path.
pub mod Laws
use c2g.Common.{
  ℕ, zero, suc, ◌-◌, Bool, true, false, List, [], ◌∷◌, ◌++◌, Bytes, codes, map, join, Option, none,
  some, length, take, ◌==◌, if◌then◌else◌,
}
use c2g.Val.Dyn.{Floats}
use c2g.Val.Value.{Value, to_string}
use c2g.Val.Value.Compare.{equal_value}
use mathlib.Core.List.{reverse}

-- `meta` is the identifier of the definition, `none` where it is nil.
pub record Segment (F : Type 0) : Type 0 where
  pub meta : Option Bytes
  pub key : List (Value F)

abbrev pub NodePath : Type 0 → Type 0
NodePath F = List (Segment F)

-- `for i, k := range a.key { if !val.Equal(k, b.key[i]) { return false } }`, on keys of one length
unfoldable pub equal_keys : {F : Type 0} → Floats F → List (Value F) → List (Value F) → Option Bool
equal_keys lib (k ∷ ks) (j ∷ js) =
    let rest = equal_keys lib ks js in
    elim (equal_value lib k j) [ none ↦ none | some false ↦ some false | some true ↦ rest ]
equal_keys lib _ _ = some true

-- The first part of `equalSegment`: `a.meta.Ident()` on a nil meta panics.
unfoldable pub equal_meta : Option Bytes → Option Bytes → Option Bool
equal_meta (some x) b = some true
equal_meta none (some y) = some false
equal_meta none none = none

unfoldable pub equal_segment : {F : Type 0} → Floats F → Segment F → Segment F → Bool → Option Bool
unfolding equal_meta equal_keys
equal_segment lib a b compare_key = elim (equal_meta a.meta b.meta) [
  | none ↦ none
  | some false ↦ some false
  | some true ↦
      if compare_key
      then (if length a.key == length b.key then equal_keys lib a.key b.key else some false)
      else some true
]

-- The loop of `Equal` and `EqualNoKey`, on paths of one length.
unfoldable pub equal_from : {F : Type 0} → Floats F → Bool → NodePath F → NodePath F → Option Bool
unfolding equal_segment
equal_from lib compare_key (a ∷ as') (b ∷ bs) =
    let rest = equal_from lib compare_key as' bs in
    elim (equal_segment lib a b compare_key) [
      | none ↦ none
      | some false ↦ some false
      | some true ↦ rest
    ]
equal_from lib compare_key _ _ = some true

-- `EqualNoKey`
unfoldable pub equal_no_key : {F : Type 0} → Floats F → NodePath F → NodePath F → Option Bool
equal_no_key lib a b = if length a == length b then equal_from lib false a b else some false

-- `Equal`
unfoldable pub equal : {F : Type 0} → Floats F → NodePath F → NodePath F → Option Bool
equal lib a b = if length a == length b then equal_from lib true a b else some false

-- `toBuffer` into an empty buffer.
unfoldable pub segment_text :
    {F : Type 0} → Floats F → (List F → Bytes) → Option Bytes → List (Value F) → Bytes
segment_text lib print_floats none key = []
segment_text lib print_floats (some ident) [] = ident
segment_text lib print_floats (some ident) (k ∷ ks) =
    ident ++ (codes "=" ++ join (codes ",") (map (to_string lib print_floats) (k ∷ ks)))

-- The last `l` segments, the outermost first, with slashes between: the loop of `str`.
abbrev joined : {F : Type 0} → Floats F → (List F → Bytes) → ℕ → NodePath F → Bytes
joined lib print_floats l seg =
    join (codes "/") (reverse (map (λ s. segment_text lib print_floats s.meta s.key) (take l seg)))

-- `String`, and `StringNoModule`, which leaves the root out and panics on a nil path.
unfoldable pub path_text : {F : Type 0} → Floats F → (List F → Bytes) → NodePath F → Bytes
unfolding segment_text
path_text lib print_floats seg = joined lib print_floats (length seg) seg

unfoldable pub path_text_no_module :
    {F : Type 0} → Floats F → (List F → Bytes) → NodePath F → Option Bytes
unfolding segment_text
path_text_no_module lib print_floats [] = none
path_text_no_module lib print_floats (s ∷ seg) =
    some (joined lib print_floats (length seg) (s ∷ seg))
