-- ===== src/Node/UrlPath/Tests.antt =====
-- Paths of URLs on concrete definitions.
use c2g.Common.{
  ℕ, ◌+◌, ◌-◌, ◌≡◌, ◌≢◌, refl, ap, List, [], ◌∷◌, Bytes, codes, bytes_eq, Bool, Option, none, some,
  ok, err, arith, ◌==◌, if◌then◌else◌,
}
use c2g.Val.Format.{scalar, fmt_string}
use c2g.Val.Value.{Value}
use c2g.Val.Samples.{bits}
use c2g.Val.Conv.{conv}
use c2g.Val.Conv.Scalars as Scalars
use c2g.Node.ListRange.{cut, split}
use c2g.Node.ListRange.Parse.{Free}
use c2g.Node.Values.{LeafType, identity, last, new_value, new_values_by_string}
use c2g.Node.UrlPath.{
  Definitions, Unescape, not_found, panics, UrlSegment, unescape_each, ident_and_keys, key_of,
  segment_of, segments_from, parse_url_path,
}
use c2g.Node.UrlPath.RoundTrip.{
  IsEscape, Written, path_text, Follows, here, step, parse_url_path-path_text,
}

abbrev text_type : LeafType
text_type = record {
  format = scalar fmt_string;
  base = identity (codes "animal") last;
  enum = [];
  union_formats = [];
}

-- 0 is a module with the list 1, users, which has the leaf 2, name.
abbrev found : ℕ → Bytes → Option (Option ℕ)
found m x =
    if m == 0
    then some (if bytes_eq x (codes "users") then some 1 else none)
    else (if m == 1 then some (if bytes_eq x (codes "name") then some 2 else none) else none)

abbrev server : Definitions
server = record {
  Meta = ℕ;
  find = found;
  key_types = λ m. if m == 1 then some (text_type ∷ []) else none;
}

abbrev bob : List (UrlSegment ℕ Bool)
bob =
    record { meta = 1; key = some (Value.string (codes "bob")) ∷ [] }
    ∷ record { meta = 2; key = [] }
    ∷ []

abbrev plain : Unescape
plain = some

parse_runs : parse_url_path bits server plain 0 (codes "users=bob/name") ≡ ok bob
unfolding parse_url_path segments_from segment_of ident_and_keys unescape_each key_of cut split
    bytes_eq new_values_by_string new_value conv Scalars.to_string
parse_runs = refl

-- A slash in front of a path ends it before its first segment, and so does a double slash.
leading_slash : parse_url_path bits server plain 0 (codes "/users") ≡ ok []
unfolding parse_url_path segments_from split
leading_slash = refl

unknown_name : parse_url_path bits server plain 0 (codes "user") ≡ err not_found
unfolding parse_url_path segments_from segment_of ident_and_keys cut split bytes_eq
unknown_name = refl

-- A leaf has no definitions.
below_leaf_panics : parse_url_path bits server plain 2 (codes "name") ≡ err panics
unfolding parse_url_path segments_from segment_of ident_and_keys cut split bytes_eq
below_leaf_panics = refl

-- A key on what is no list.
key_of_leaf_panics : parse_url_path bits server plain 1 (codes "name=a") ≡ err panics
unfolding parse_url_path segments_from segment_of ident_and_keys unescape_each key_of cut split
    bytes_eq
key_of_leaf_panics = refl

-- An escape that adds 128 to every byte.
abbrev shift : Bytes → Bytes
shift [] = []
shift (c ∷ s) = (c + 128) ∷ shift s

abbrev unshift : Bytes → Bytes
unshift [] = []
unshift (c ∷ s) = (c - 128) ∷ unshift s

unshift-shift : (s : Bytes) → unshift (shift s) ≡ s
unshift-shift [] = refl
unshift-shift (c ∷ s) = ground (arith, unshift-shift s)

shift-Free : (s : Bytes) → Free b'/' (shift s) × Free b'=' (shift s) × Free b',' (shift s)
shift-Free [] = (tt, tt, tt)
shift-Free (c ∷ s) =
    let (f, g, h) = shift-Free s in ((ground arith, f), (ground arith, g), (ground arith, h))

shift_nonempty : (s : Bytes) → s ≢ [] → shift s ≢ []
shift_nonempty [] n = n
shift_nonempty (c ∷ s) n = λ e. cc

shift-IsEscape : IsEscape shift (λ s. some (unshift s))
shift-IsEscape = record {
  undone = λ s. ap some (unshift-shift s);
  nonempty = shift_nonempty;
  free = shift-Free;
}

abbrev written : List Written
written =
    record { name = codes "users"; keys = codes "bob" ∷ [] }
    ∷ record { name = codes "name"; keys = [] }
    ∷ []

written-Follows : Follows bits server 0 written bob
unfolding key_of new_values_by_string new_value conv Scalars.to_string bytes_eq
written-Follows = step (λ e. cc) refl refl (step (λ e. cc) refl refl here)

parse_url_path-path_text_example :
    parse_url_path bits server (λ s. some (unshift s)) 0 (path_text shift written) ≡ ok bob
parse_url_path-path_text_example =
    parse_url_path-path_text bits server shift (λ s. some (unshift s)) shift-IsEscape 0 written bob
      written-Follows
