-- ===== src/Node/Matcher.antt =====
-- node/path_matcher.go: path expressions such as `aa/(bbb;ccc)/ddd`. A `segSlice` is the list of its
-- identifiers, the head first; the source shares and copies `seg` chains so that no chain that is
-- shared is written, and values stand for them here.
pub mod Grammar
pub mod Products
pub mod Rounds
pub mod Parse
pub mod Total
pub mod Match
use c2g.Common.{
  ℕ, zero, suc, Bool, true, false, ◌||◌, List, [], ◌∷◌, ◌++◌, Bytes, Option, none, some, length,
  map, ◌==◌, if◌then◌else◌, bytes_eq, codes,
}

abbrev pub Slice : Type 0
Slice = List Bytes

-- The bytes of `"(;)/"`.
abbrev pub is_delimiter : ℕ → Bool
is_delimiter c = c == b'(' || c == b';' || c == b')' || c == b'/'

-- Up to the first delimiter.
unfoldable pub span_name : Bytes → Bytes × Bytes
span_name [] = ([], [])
span_name (c ∷ s) =
    let (tok, rest) = span_name s in if is_delimiter c then ([], c ∷ s) else (c ∷ tok, rest)

-- `lex.next`: a delimiter, or what stands before the next one; and the text behind it.
unfoldable pub next : Bytes → Bytes × Bytes
unfolding span_name
next [] = ([], [])
next (c ∷ s) = if is_delimiter c then (c ∷ [], s) else span_name (c ∷ s)

-- Every slice of the one followed by every slice of the other.
unfoldable pub product : List Slice → List Slice → List Slice
product [] sub = []
product (x ∷ xs) sub = map (λ (y : Slice). x ++ y) sub ++ product xs sub

-- `addSegment`
unfoldable pub add_segment : Bytes → List Slice → List Slice
add_segment ident [] = (ident ∷ []) ∷ []
add_segment ident (x ∷ xs) = map (λ (y : Slice). y ++ ident ∷ []) (x ∷ xs)

-- `addSubExpression`
unfoldable pub add_sub_expression : List Slice → List Slice → List Slice
unfolding product
add_sub_expression sub slices = product slices sub

-- The slices of `self`, and those of `split` where it is not nil. `s` is `split` if there is one.
abbrev pub Building : Type 0
Building = List Slice × Option (List Slice)

unfoldable pub update : (List Slice → List Slice) → Building → Building
update g (self, none) = (g self, none)
update g (self, some split) = (self, some (g split))

-- `if split != nil { self.addNextExpression(s) }`
unfoldable pub flush : Building → List Slice
flush (self, none) = self
flush (self, some split) = self ++ split

-- What `parsex` leaves: the slices, and the text that is left.
abbrev pub Parsed : Type 0
Parsed = List Slice × Bytes

-- The switch of `parsex`; `again` is the loop behind it, and `nested` a call of `parsex`.
unfoldable pub dispatch :
    (Bytes → Option Parsed)
    → (Bytes → Building → Option Parsed)
    → Bytes
    → Bytes
    → Building
    → Option Parsed
unfolding update flush add_segment add_sub_expression
dispatch nested again t rest b =
    if bytes_eq t (codes "(")
    then elim (nested rest) [
      | none ↦ none
      | some (sub, rest') ↦ again rest' (update (add_sub_expression sub) b)
    ]
    else if bytes_eq t (codes ";")
    then again rest (flush b, some [])
    else if bytes_eq t (codes ")")
    then some (flush b, rest)
    else if bytes_eq t (codes "/")
    then again rest b
    else again rest (update (add_segment t) b)

-- `parsex` from some round of its loop on. Each round takes a byte at least, so that fuel above the
-- length of the text is enough.
unfoldable pub parsex : ℕ → Bytes → Building → Option Parsed
unfolding dispatch
parsex zero rest b = none
parsex (suc f) [] b = some (flush b, [])
parsex (suc f) (c ∷ s) b =
    let (t, rest) = next (c ∷ s) in dispatch (λ r. parsex f r ([], none)) (parsex f) t rest b

-- `ParsePathExpression`
unfoldable pub parse_path_expression : Bytes → Option Parsed
unfolding parsex next bytes_eq
parse_path_expression selector = parsex (suc (length selector)) selector ([], none)
