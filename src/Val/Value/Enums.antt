-- ===== src/Val/Value/Enums.antt =====
-- val/types.go: the methods of EnumList and IdentRefList.
pub mod Laws
use c2g.Common.{
  ℕ, ◌^◌, Bool, true, List, [], ◌∷◌, ◌++◌, Bytes, bytes_eq, map, Option, none, some, if◌then◌else◌,
  ◌==◌, ◌&&◌,
}
use c2g.Common.Int.{ℤ, pos, negsuc, ◌-ℤ◌, wrap_signed, pos_part, neg_part}
use c2g.Val.Value.{Enum, IdentRef}

-- `==` on integers
abbrev pub eq_ℤ : ℤ → ℤ → Bool
eq_ℤ a b = (pos_part a == pos_part b) && (neg_part a == neg_part b)

-- `Id + 1` on an `int`
abbrev successor : ℤ → ℤ
successor z = wrap_signed (2 ^ 63) (z -ℤ negsuc 0)

-- `EnumList.NextId`: one more than the last id.
unfoldable pub next_id : List Enum → ℤ
next_id [] = pos 0
next_id (e ∷ []) = successor e.id
next_id (_ ∷ e ∷ es) = next_id (e ∷ es)

-- `EnumList.Add`
unfoldable pub add : List Enum → Bytes → List Enum
unfolding next_id
add x e = x ++ (record { id = next_id x; label = e } ∷ [])

-- `EnumList.Labels` and `EnumList.Ids`
unfoldable pub labels : List Enum → List Bytes
labels e = map (λ x. x.label) e

unfoldable pub ids : List Enum → List ℤ
ids e = map (λ x. x.id) e

-- `EnumList.ById`
unfoldable pub by_id : ℤ → List Enum → Option Enum
by_id id [] = none
by_id id (i ∷ e) = if eq_ℤ i.id id then some i else by_id id e

-- `EnumList.ByLabel`
unfoldable pub by_label : Bytes → List Enum → Option Enum
by_label label [] = none
by_label label (i ∷ e) = if bytes_eq i.label label then some i else by_label label e

-- `IdentRefList.ByLabel`
unfoldable pub ident_by_label : Bytes → List IdentRef → Option IdentRef
ident_by_label label [] = none
ident_by_label label (i ∷ e) = if bytes_eq i.label label then some i else ident_by_label label e
