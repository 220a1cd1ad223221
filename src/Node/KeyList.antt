-- ===== src/Node/KeyList.antt =====
-- node/key_list_builder.go: the keys of the items of a list, from paths into it.
pub mod Laws
use c2g.Common.{
  ℕ, Bool, true, false, List, [], ◌∷◌, ◌++◌, Bytes, bytes_eq, Option, none, some, length, drop,
  if◌then◌else◌,
}
use c2g.Node.ListRange.{cut}
use c2g.Parser.Lexer.{has_prefix}

-- `KeyListBuilder`; the set is the list of its keys.
pub record KeyListBuilder : Type 0 where
  pub set : List Bytes
  pub prefix : Bytes
  pub key_start : ℕ

-- `NewKeyListBuilder`
unfoldable pub new_key_list_builder : Bytes → KeyListBuilder
new_key_list_builder list_path = record {
  set = [];
  prefix = list_path ++ b'=' ∷ [];
  key_start = length (list_path ++ b'=' ∷ []);
}

abbrev pub insert_key : Bytes → List Bytes → List Bytes
insert_key k [] = k ∷ []
insert_key k (x ∷ xs) = let rest = insert_key k xs in if bytes_eq x k then x ∷ xs else x ∷ rest

-- The text up to the first slash.
unfoldable pub up_to_slash : Bytes → Bytes
unfolding cut
up_to_slash s = elim (cut b'/' s) [ none ↦ s | some (before, behind) ↦ before ]

-- `ParseKey`
unfoldable pub parse_key : KeyListBuilder → Bytes → Bool × KeyListBuilder
unfolding up_to_slash
parse_key klb path =
    if has_prefix klb.prefix path
    then (true, record klb { set = insert_key (up_to_slash (drop klb.key_start path)) klb.set })
    else (false, klb)

-- `List`, by the order of Go's loop over the set and `sort.Strings`.
unfoldable pub key_list :
    (List Bytes → List Bytes) → (List Bytes → List Bytes) → KeyListBuilder → List Bytes
key_list iterate sort klb = sort (iterate klb.set)
