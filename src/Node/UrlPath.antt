-- ===== src/Node/UrlPath.antt =====
-- node/path_slice.go: ParseUrlPath on the escaped path of a URL.
pub mod RoundTrip
mod Tests
use c2g.Common.{
  ℕ, suc, List, [], ◌∷◌, ◌++◌, Bytes, Bool, true, false, Option, none, some, Result, ok, err, map,
  length,
}
use c2g.Val.Dyn.{Floats}
use c2g.Val.Value.{Value}
use c2g.Node.ListRange.{cut, split}
use c2g.Node.Values.{LeafType, ValueError, new_values_by_string}

-- The definitions that a path goes through: `find` is meta.Find with the assertion in front of it,
-- `none` where one of them panics, and `key_types` the types of the keys of a list, `none` for what is
-- no list.
pub record Definitions : Type 1 where
  pub Meta : Type 0
  pub find : Meta → Bytes → Option (Option Meta)
  pub key_types : Meta → Option (List LeafType)

-- What is not in the repository: `url.QueryUnescape`, `none` where it returns an error.
abbrev pub Unescape : Type 0
Unescape = Bytes → Option Bytes

pub data PathError : Type 0 where
  escape not_found : PathError
  value : ValueError → PathError
  panics : PathError

-- `Path` by its fields meta and key; its parent is the segment in front.
pub record UrlSegment (M F : Type 0) : Type 0 where
  pub meta : M
  pub key : List (Option (Value F))

-- `for i, escapedKeystr := range keyStrs { … }`
unfoldable pub unescape_each : Unescape → List Bytes → Result PathError (List Bytes)
unescape_each u [] = ok []
unescape_each u (k ∷ ks) = elim (u k) [
  | none ↦ err escape
  | some x ↦ elim (unescape_each u ks) [ err e ↦ err e | ok xs ↦ ok (x ∷ xs) ]
]

abbrev pub parts : Bytes × List Bytes → List Bytes
parts (part, rest) = part ∷ rest

-- The identifier and the texts of the keys of a segment.
unfoldable pub ident_and_keys : Unescape → Bytes → Result PathError (Bytes × List Bytes)
unfolding unescape_each cut split
ident_and_keys u segment = elim (cut b'=' segment) [
  | none ↦ elim (u segment) [ none ↦ err escape | some x ↦ ok (x, []) ]
  | some (name, keys) ↦ elim (u name) [
    | none ↦ err escape
    | some x ↦ elim (unescape_each u (parts (split b',' keys))) [
      | err e ↦ err e
      | ok ks ↦ ok (x, ks)
    ]
  ]
]

module _ {F : Type 0} (lib : Floats F) (D : Definitions) where
  -- `if len(keyStrs) > 0 { seg.key, err = NewValuesByString(…) }`
  unfoldable pub key_of : D.Meta → List Bytes → Result PathError (List (Option (Value F)))
  unfolding new_values_by_string
  key_of m [] = ok []
  key_of m (k ∷ ks) = elim (D.key_types m) [
    | none ↦ err panics
    | some types ↦ elim (new_values_by_string lib types (k ∷ ks)) [
      | none ↦ err panics
      | some (err e) ↦ err (value e)
      | some (ok vs) ↦ ok vs
    ]
  ]

  -- One round of the loop.
  unfoldable pub segment_of : Unescape → D.Meta → Bytes → Result PathError (UrlSegment D.Meta F)
  unfolding ident_and_keys key_of
  segment_of u p segment = elim (ident_and_keys u segment) [
    | err e ↦ err e
    | ok (x, keys) ↦ elim (D.find p x) [
      | none ↦ err panics
      | some none ↦ err not_found
      | some (some m) ↦ elim (key_of m keys) [
        | err e ↦ err e
        | ok k ↦ ok (record { meta = m; key = k })
      ]
    ]
  ]

  -- The loop, which an empty segment ends.
  unfoldable pub segments_from :
      Unescape → D.Meta → List Bytes → Result PathError (List (UrlSegment D.Meta F))
  unfolding segment_of
  segments_from u p [] = ok []
  segments_from u p ([] ∷ rest) = ok []
  segments_from u p ((c ∷ s) ∷ rest) = elim (segment_of u p (c ∷ s)) [
    | err e ↦ err e
    | ok seg ↦ elim (segments_from u seg.meta rest) [ err e ↦ err e | ok segs ↦ ok (seg ∷ segs) ]
  ]

  -- `ParseUrlPath`: the segments behind the head of the slice, whose meta is `m`. The tail is the
  -- last of them.
  unfoldable pub parse_url_path :
      Unescape → D.Meta → Bytes → Result PathError (List (UrlSegment D.Meta F))
  unfolding segments_from split
  parse_url_path u m path = segments_from u m (parts (split b'/' path))
