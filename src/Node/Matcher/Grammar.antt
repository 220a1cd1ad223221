-- ===== src/Node/Matcher/Grammar.antt =====
-- The path expressions, their text, and the paths that they stand for, with no parser in it.
use c2g.Common.{false, List, [], ◌∷◌, ◌++◌, Bytes, codes, ◌≡◌, ◌≢◌}
use c2g.Node.Matcher.{Slice, is_delimiter, product}

-- A sequence of names and groups, and the alternatives of a group.
mutual
  pub data Item : Type 0 where
    name : Bytes → Item
    group : Alternatives → Item

  pub data Sequence : Type 0 where
    last : Item → Sequence
    more : Item → Sequence → Sequence

  pub data Alternatives : Type 0 where
    only : Sequence → Alternatives
    either : Sequence → Alternatives → Alternatives

-- The text in front of `tail`: slashes between the items, semicolons between the alternatives.
unfoldable mutual
  pub print_item : Item → Bytes → Bytes
  print_item (name x) tail = x ++ tail
  print_item (group a) tail = codes "(" ++ print_alternatives a (codes ")" ++ tail)

  pub print_sequence : Sequence → Bytes → Bytes
  print_sequence (last i) tail = print_item i tail
  print_sequence (more i q) tail = print_item i (codes "/" ++ print_sequence q tail)

  pub print_alternatives : Alternatives → Bytes → Bytes
  print_alternatives (only q) tail = print_sequence q tail
  print_alternatives (either q a) tail = print_sequence q (codes ";" ++ print_alternatives a tail)

-- A path takes a name, or one of the alternatives, for each item.
unfoldable mutual
  pub item_paths : Item → List Slice
  item_paths (name x) = (x ∷ []) ∷ []
  item_paths (group a) = paths a

  pub sequence_paths : Sequence → List Slice
  sequence_paths (last i) = item_paths i
  sequence_paths (more i q) = product (item_paths i) (sequence_paths q)

  pub paths : Alternatives → List Slice
  paths (only q) = sequence_paths q
  paths (either q a) = sequence_paths q ++ paths a

abbrev pub NameBytes : Bytes → Type 0
NameBytes [] = Unit
NameBytes (c ∷ s) = (is_delimiter c ≡ false) × NameBytes s

pub record IsName (x : Bytes) : Type 0 where
  pub name_bytes : NameBytes x
  pub ne_nil : x ≢ []

-- Names hold no delimiter, and every sequence begins with a name.
abbrev pub BeginsNamed : Sequence → Type 0
BeginsNamed (last (name x)) = Unit
BeginsNamed (last (group a)) = ⊥
BeginsNamed (more (name x) q) = Unit
BeginsNamed (more (group a) q) = ⊥

abbrev mutual
  pub ItemIsValid : Item → Type 0
  ItemIsValid (name x) = IsName x
  ItemIsValid (group a) = IsValid a

  pub SequenceIsValid : Sequence → Type 0
  SequenceIsValid (last i) = ItemIsValid i
  SequenceIsValid (more i q) = ItemIsValid i × SequenceIsValid q

  pub IsValid : Alternatives → Type 0
  IsValid (only q) = SequenceIsValid q × BeginsNamed q
  IsValid (either q a) = SequenceIsValid q × BeginsNamed q × IsValid a
