-- ===== src/Node/Matcher/Match/Prefix.antt =====
-- node/path_matcher.go: which candidates `PathMatches` accepts.
use mathlib.Core.List.{reverse, reverse-cons, reverse-append, reverse-reverse}
use c2g.Common.{
  ℕ, zero, suc, ◌+◌, ◌<◌, ◌≤◌, ◌≡◌, refl, sym, ap, ◌∙◌, Bool, true, false, ◌&&◌, ◌||◌, List, [],
  ◌∷◌, ◌++◌, Bytes, bytes_eq, bytes_eq_iff, Option, none, some, length, length-append, ◌==◌, arith,
  All, Bool-cases, inl, inr,
}
use c2g.Common.Int.{pos, sub_ℕ}
use c2g.Val.Dyn.{Floats}
use c2g.Val.Value.Compare.{all_equal}
use c2g.Val.Value.Equal.{all_equal_iff}
use c2g.Node.Path.{NodePath}
use c2g.Node.Path.Laws.{HasMeta}
use c2g.Node.Matcher.{Slice}
use c2g.Node.Matcher.Match.{slice_matches, any_matches, path_matches}
use c2g.Node.Matcher.Match.Laws.{
  Step, climb, idents, length-climb, match_from-steps, match_from-append, match_from_panics,
}

-- The path below `b` by some steps, the first at the top.
abbrev pub below : {F : Type 0} → NodePath F → List (Step F) → NodePath F
below b r = climb (reverse r) b

-- The identifiers of the slice are the first of the list.
abbrev pub is_prefix : Slice → List Bytes → Bool
is_prefix [] ids = true
is_prefix (x ∷ s) [] = false
is_prefix (x ∷ s) (y ∷ ids) = bytes_eq y x && is_prefix s ids

-- Some slice is such a prefix.
abbrev pub has_prefix : List Slice → List Bytes → Bool
has_prefix [] ids = false
has_prefix (x ∷ slices) ids = is_prefix x ids || has_prefix slices ids

-- The slices are not empty, and not longer than `n`.
abbrev pub NotLonger : ℕ → List Slice → Type 0
NotLonger n [] = Unit
NotLonger n (s ∷ slices) = (0 < length s) × (length s ≤ n) × NotLonger n slices

length-reverse {ℓ} : {A : Type ℓ} (l : List A) → length (reverse l) ≡ length l
length-reverse [] = refl
length-reverse (x ∷ l) =
    rw (reverse-cons x l) (omega (arith, length-append (reverse l) (x ∷ []), length-reverse l))

idents-append : {F : Type 0} (a b : List (Step F)) → idents (a ++ b) ≡ idents a ++ idents b
idents-append [] b = refl
idents-append (t ∷ a) b = ap (λ l. t.0 ∷ l) (idents-append a b)

idents-reverse : {F : Type 0} (a : List (Step F)) → idents (reverse a) ≡ reverse (idents a)
idents-reverse [] = refl
idents-reverse (t ∷ a) =
    rw
      (
        reverse-cons t a,
        reverse-cons t.0 (idents a),
        idents-append (reverse a) (t ∷ []),
        idents-reverse a,
      )
      refl

all_equal-reverse :
    (a b : List Bytes) → all_equal bytes_eq (reverse a) (reverse b) ≡ all_equal bytes_eq a b
all_equal-reverse a b = elim (Bool-cases (all_equal bytes_eq a b)) [
  | inl same ↦
      let e = (all_equal_iff bytes_eq bytes_eq_iff a b).0 same in
      rw same ((all_equal_iff bytes_eq bytes_eq_iff (reverse a) (reverse b)).1 (ap reverse e))
  | inr other ↦ elim (Bool-cases (all_equal bytes_eq (reverse a) (reverse b))) [
    | inl same ↦
        let e = (all_equal_iff bytes_eq bytes_eq_iff (reverse a) (reverse b)).0 same in
        let e' : a ≡ b = sym (reverse-reverse a) ∙ ap reverse e ∙ reverse-reverse b in
        let t = (all_equal_iff bytes_eq bytes_eq_iff a b).1 e' in cc
    | inr different ↦ different ∙ sym other
  ]
]

split_at {ℓ} :
    {A : Type ℓ} (n : ℕ) (r : List A)
    → n ≤ length r
    → (top : List A) × (rest : List A) × (r ≡ top ++ rest) × (length top ≡ n)
split_at zero r h = ([], r, refl, refl)
split_at (suc n) [] h = absurd (omega arith)
split_at (suc n) (x ∷ r) h =
    let (top, rest, e, q) = split_at n r (omega arith) in
    (x ∷ top, rest, ap (λ l. x ∷ l) e, ap suc q)

is_prefix-append :
    (s : Slice) (a b : List Bytes)
    → length s ≡ length a
    → is_prefix s (a ++ b) ≡ all_equal bytes_eq a s
is_prefix-append [] [] b e = refl
is_prefix-append [] (x ∷ a) b e = absurd (omega arith)
is_prefix-append (x ∷ s) [] b e = absurd (omega arith)
is_prefix-append (x ∷ s) (y ∷ a) b e = rw (is_prefix-append s a b (omega arith)) refl

length-idents : {F : Type 0} (a : List (Step F)) → length (idents a) ≡ length a
length-idents [] = refl
length-idents (t ∷ a) = ap suc (length-idents a)

difference : (m k l : ℕ) → k ≡ l → sub_ℕ (m + k) l ≡ pos m
difference m k l e = ground arith

first_match :
    (first rest : Option Bool) (c d : Bool)
    → first ≡ some c
    → rest ≡ some d
    → (elim first [ none ↦ none | some true ↦ some true | some false ↦ rest ]) ≡ some (c || d)
first_match first rest true d p q = rw p refl
first_match first rest false d p q = rw (p, q) refl

module _ {F : Type 0} (lib : Floats F) (base b : NodePath F) (h : All HasMeta b)
    (e : length b ≡ length base) where
  slice_matches-append :
      (slice : Slice) (top rest : List (Step F))
      → length top ≡ length slice
      → slice_matches lib slice base (below b (top ++ rest))
        ≡ some (is_prefix slice (idents (top ++ rest)))
  unfolding slice_matches
  slice_matches-append slice top rest q =
      rw
        (
          reverse-append top rest,
          length-climb (reverse rest ++ reverse top) b,
          difference (length (reverse rest ++ reverse top)) (length b) (length base) e,
          ← length-reverse slice,
          match_from-append lib base b h (reverse rest) (reverse top) (reverse slice) e
              (omega (arith, length-reverse slice, length-reverse top)),
          match_from-steps lib base b h (reverse top) (reverse slice) e
              (omega (arith, length-reverse slice, length-reverse top)),
          idents-reverse top,
          all_equal-reverse (idents top) slice,
          idents-append top rest,
          is_prefix-append slice (idents top) (idents rest) (omega (arith, length-idents top)),
        )
        refl

  -- A slice that is not longer than the way from the base to the candidate matches exactly where
  -- the identifiers on that way begin with the slice. The base and the upper part of the candidate
  -- need only be of one length, and the segments of that part have definitions.
  pub slice_matches-is_prefix :
      (slice : Slice) (r : List (Step F))
      → length slice ≤ length r
      → slice_matches lib slice base (below b r) ≡ some (is_prefix slice (idents r))
  slice_matches-is_prefix slice r q =
      let (top, rest, split, l) = split_at (length slice) r q in
      rw split (slice_matches-append slice top rest l)

  -- A slice that is longer than that way leads to a panic.
  pub slice_matches_panics :
      (slice : Slice) (r : List (Step F))
      → length r < length slice
      → slice_matches lib slice base (below b r) ≡ none
  unfolding slice_matches
  slice_matches_panics [] r q = absurd (omega arith)
  slice_matches_panics (x ∷ slice) r q =
      rw (length-climb (reverse r) b, difference (length (reverse r)) (length b) (length base) e)
        (match_from_panics lib base (reverse (x ∷ slice)) (length slice) (pos (length (reverse r)))
          (climb (reverse r) b) (omega (arith, length-reverse r)))

  any_matches-has_prefix :
      (slices : List Slice) (r : List (Step F))
      → NotLonger (length r) slices
      → any_matches lib slices base (below b r) ≡ some (has_prefix slices (idents r))
  unfolding any_matches
  any_matches-has_prefix [] r q = refl
  any_matches-has_prefix ([] ∷ slices) r q = absurd (omega arith)
  any_matches-has_prefix ((x ∷ s) ∷ slices) r q =
      first_match (slice_matches lib (x ∷ s) base (below b r))
        (any_matches lib slices base (below b r)) (is_prefix (x ∷ s) (idents r))
        (has_prefix slices (idents r)) (slice_matches-is_prefix (x ∷ s) r q.1)
        (any_matches-has_prefix slices r q.2)

  -- `PathMatches` accepts a candidate exactly where there are no slices or the identifiers on the
  -- way from the base to the candidate begin with one of them, provided that no slice is empty or
  -- longer than that way. The base and the upper part of the candidate need only be of one length,
  -- and the segments of that part have definitions.
  pub path_matches-has_prefix :
      (slices : List Slice) (r : List (Step F))
      → NotLonger (length r) slices
      → path_matches lib slices base (below b r)
        ≡ some (length slices == 0 || has_prefix slices (idents r))
  unfolding path_matches
  path_matches-has_prefix [] r q = refl
  path_matches-has_prefix (x ∷ slices) r q = any_matches-has_prefix (x ∷ slices) r q ∙ ground arith
