-- ===== src/Node/Matcher/Products.antt =====
-- Products of lists of paths, and what the parser's steps make of them.
use mathlib.Core.List.{append_assoc, map-append}
use c2g.Common.{◌≡◌, refl, ap, ◌∙◌, List, [], ◌∷◌, ◌++◌, Bytes, map}
use c2g.Node.Matcher.{Slice, product, add_segment, add_sub_expression}
use c2g.Node.Matcher.Grammar.{
  Item, name, group, Sequence, last, more, Alternatives, only, either, item_paths, sequence_paths,
  paths, BeginsNamed,
}

map_prefix :
    (x y : Slice) (zs : List Slice)
    → map (λ (z : Slice). (x ++ y) ++ z) zs
      ≡ map (λ (z : Slice). x ++ z) (map (λ (z : Slice). y ++ z) zs)
map_prefix x y [] = refl
map_prefix x y (z ∷ zs) = rw (map_prefix x y zs, append_assoc)

product-append : (a b c : List Slice) → product (a ++ b) c ≡ product a c ++ product b c
unfolding product
product-append [] b c = refl
product-append (x ∷ a) b c = rw (product-append a b c, append_assoc)

product-map :
    (x : Slice) (b c : List Slice)
    → product (map (λ (y : Slice). x ++ y) b) c ≡ map (λ (y : Slice). x ++ y) (product b c)
unfolding product
product-map x [] c = refl
product-map x (y ∷ b) c = rw (map-append, product-map x b c, map_prefix x y c)

pub product_assoc : (a b c : List Slice) → product (product a b) c ≡ product a (product b c)
unfolding product
product_assoc [] b c = refl
product_assoc (x ∷ a) b c =
    product-append (map (λ (y : Slice). x ++ y) b) (product a b) c
    ∙ rw (product-map x b c, product_assoc a b c)

abbrev pub IsCons : List Slice → Type 0
IsCons [] = ⊥
IsCons (_ ∷ _) = Unit

product-IsCons : (a b : List Slice) → IsCons a → IsCons b → IsCons (product a b)
unfolding product
product-IsCons [] b p q = absurd p
product-IsCons (x ∷ a) [] p q = absurd q
product-IsCons (x ∷ a) (y ∷ b) p q = tt

append-IsCons : (a b : List Slice) → IsCons a → IsCons (a ++ b)
append-IsCons [] b p = absurd p
append-IsCons (x ∷ a) b p = tt

mutual
  unfolding item_paths sequence_paths paths

  item_paths-IsCons : (i : Item) → IsCons (item_paths i)
  item_paths-IsCons (name x) = tt
  item_paths-IsCons (group a) = paths-IsCons a

  sequence_paths-IsCons : (q : Sequence) → IsCons (sequence_paths q)
  sequence_paths-IsCons (last i) = item_paths-IsCons i
  sequence_paths-IsCons (more i q) =
      product-IsCons (item_paths i) (sequence_paths q) (item_paths-IsCons i)
        (sequence_paths-IsCons q)

  pub paths-IsCons : (a : Alternatives) → IsCons (paths a)
  paths-IsCons (only q) = sequence_paths-IsCons q
  paths-IsCons (either q a) = append-IsCons (sequence_paths q) (paths a) (sequence_paths-IsCons q)

-- What the parser does to its slices on an item, and on a sequence.
unfoldable pub add_item : Item → List Slice → List Slice
add_item (name x) slices = add_segment x slices
add_item (group a) slices = add_sub_expression (paths a) slices

unfoldable pub add_sequence : Sequence → List Slice → List Slice
unfolding add_item
add_sequence (last i) slices = add_item i slices
add_sequence (more i q) slices = add_sequence q (add_item i slices)

map_last :
    (x : Bytes) (ys : List Slice) → map (λ (y : Slice). y ++ x ∷ []) ys ≡ product ys ((x ∷ []) ∷ [])
unfolding product
map_last x [] = refl
map_last x (y ∷ ys) = rw (map_last x ys)

add_item-product :
    (i : Item) (slices : List Slice)
    → IsCons slices
    → add_item i slices ≡ product slices (item_paths i)
unfolding add_item add_segment add_sub_expression item_paths
add_item-product i [] p = absurd p
add_item-product (name x) (y ∷ ys) p = map_last x (y ∷ ys)
add_item-product (group a) (y ∷ ys) p = refl

add_sequence-product :
    (q : Sequence) (slices : List Slice)
    → IsCons slices
    → add_sequence q slices ≡ product slices (sequence_paths q)
unfolding add_sequence sequence_paths
add_sequence-product (last i) slices p = add_item-product i slices p
add_sequence-product (more i q) slices p =
    ap (add_sequence q) (add_item-product i slices p)
    ∙ add_sequence-product q (product slices (item_paths i))
        (product-IsCons slices (item_paths i) p (item_paths-IsCons i))
    ∙ product_assoc slices (item_paths i) (sequence_paths q)

-- A sequence that begins with a name builds its paths from nothing.
pub add_sequence-nil : (q : Sequence) → BeginsNamed q → add_sequence q [] ≡ sequence_paths q
unfolding add_sequence sequence_paths item_paths add_segment
add_sequence-nil (last (name x)) h = refl
add_sequence-nil (last (group a)) h = absurd h
add_sequence-nil (more (name x) q) h = add_sequence-product q ((x ∷ []) ∷ []) tt
add_sequence-nil (more (group a) q) h = absurd h
