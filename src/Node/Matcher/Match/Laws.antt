-- ===== src/Node/Matcher/Match/Laws.antt =====
-- node/path_matcher.go: a slice matches a candidate whose identifiers below the base begin with it.
use c2g.Common.{
  ℕ, suc, ◌+◌, ◌-◌, ◌<◌, ◌≡◌, refl, ◌≢◌, Bool, true, false, ◌&&◌, List, [], ◌∷◌, ◌++◌, Bytes,
  bytes_eq, none, some, length, length-append, ◌==◌, if◌then◌else◌, arith, All,
}
use c2g.Common.Int.{ℤ, pos, ◌-ℤ◌, ◌<ℤ◌}
use c2g.Val.Dyn.{Floats}
use c2g.Val.Value.{Value}
use c2g.Val.Value.Compare.{all_equal}
use c2g.Val.Value.Enums.{eq_ℤ}
use c2g.Node.Path.{Segment, NodePath, equal_no_key}
use c2g.Node.Path.Laws.{HasMeta, equal_no_key-length}
use c2g.Node.Matcher.{Slice}
use c2g.Node.Matcher.Match.{same_ident, parent, settle, match_from}

-- An identifier with the keys that stand at it.
abbrev pub Step : Type 0 → Type 0
Step F = Bytes × List (Value F)

abbrev pub segment : {F : Type 0} → Step F → Segment F
segment (ident, key) = record { meta = some ident; key = key }

-- The path below `b` by some steps, the last first.
abbrev pub climb : {F : Type 0} → List (Step F) → NodePath F → NodePath F
climb [] b = b
climb (t ∷ ts) b = segment t ∷ climb ts b

-- The identifiers of some steps.
abbrev pub idents : {F : Type 0} → List (Step F) → List Bytes
idents [] = []
idents (t ∷ ts) = t.0 ∷ idents ts

pub length-climb :
    {F : Type 0} (ts : List (Step F)) (b : NodePath F) → length (climb ts b) ≡ length ts + length b
length-climb [] b = omega arith
length-climb (t ∷ ts) b = omega (arith, length-climb ts b)

climb-HasMeta :
    {F : Type 0} (ts : List (Step F)) (b : NodePath F) → All HasMeta b → All HasMeta (climb ts b)
climb-HasMeta [] b h = h
climb-HasMeta (t ∷ ts) b h = ((t.0, refl), climb-HasMeta ts b h)

index_step : (n : ℕ) → pos (suc n) -ℤ pos 1 ≡ pos n
index_step n = ground arith

eq_index : (m n : ℕ) → m ≡ n → eq_ℤ (pos m) (pos n) ≡ true
eq_index m n e = ground arith

ne_index : (i : ℤ) (n : ℕ) → i ≢ pos n → eq_ℤ i (pos n) ≡ false
ne_index i n e = ground arith

suc_ne_zero : (n : ℕ) → (suc n == 0) ≡ false
suc_ne_zero n = ground arith

pred_suc : (n : ℕ) → suc n - 1 ≡ n
pred_suc n = omega arith

settle-some : (c d : Bool) → settle (some false) (some c) (some d) ≡ some (c && d)
unfolding settle
settle-some true d = refl
settle-some false d = refl

-- Before the first zero the comparison with the base says no, or is not made.
not_yet :
    {F : Type 0} (lib : Floats F) (n : ℕ) (p base : NodePath F)
    → All HasMeta p
    → length base < length p
    → (if n == 0 then equal_no_key lib p base else some false) ≡ some false
not_yet lib n p base h q = rw (equal_no_key-length lib p base h) (ground arith)

module _ {F : Type 0} (lib : Floats F) (base b : NodePath F) (h : All HasMeta b) where
  -- At the base the slice has been read.
  match_from-base : length b ≡ length base → match_from lib base [] 0 (pos 0) b ≡ some true
  unfolding match_from settle
  match_from-base e = at_base b h e
    where
      at_base :
          (p : NodePath F)
          → All HasMeta p
          → length p ≡ length base
          → match_from lib base [] 0 (pos 0) p ≡ some true
      at_base [] m q = rw (equal_no_key-length lib [] base m) (ground arith)
      at_base (x ∷ p) m q = rw (equal_no_key-length lib (x ∷ p) base m) (ground arith)

  -- As many steps as the slice is long: they are compared one by one.
  pub match_from-steps :
      (ts : List (Step F)) (s : Slice)
      → length b ≡ length base
      → length s ≡ length ts
      → match_from lib base s (length s) (pos (length ts)) (climb ts b)
        ≡ some (all_equal bytes_eq (idents ts) s)
  unfolding match_from settle same_ident parent
  match_from-steps [] [] e q = match_from-base e
  match_from-steps [] (y ∷ s) e q = absurd (omega arith)
  match_from-steps (t ∷ ts) [] e q = absurd (omega arith)
  match_from-steps (t ∷ ts) (y ∷ s) e q =
      rw
        (
          suc_ne_zero (length s),
          eq_index (suc (length ts)) (suc (length s)) (omega arith),
          index_step (length ts),
          pred_suc (length s),
          match_from-steps ts s e (omega arith),
        )
        (settle-some (bytes_eq t.0 y) (all_equal bytes_eq (idents ts) s))

  -- Steps in front of those are passed over.
  pub match_from-append :
      (us ts : List (Step F)) (s : Slice)
      → length b ≡ length base
      → length s ≡ length ts
      → match_from lib base s (length s) (pos (length (us ++ ts))) (climb (us ++ ts) b)
        ≡ match_from lib base s (length s) (pos (length ts)) (climb ts b)
  unfolding match_from settle same_ident parent
  match_from-append [] ts s e q = refl
  match_from-append (t ∷ us) ts s e q =
      let more = length-append us ts in
      rw
        (
          not_yet lib (length s) (climb (t ∷ (us ++ ts)) b) base
              (climb-HasMeta (t ∷ (us ++ ts)) b h) (omega (arith, length-climb (us ++ ts) b)),
          ne_index (pos (suc (length (us ++ ts)))) (length s) (λ p. ground arith),
          index_step (length (us ++ ts)),
          match_from-append us ts s e q,
        )
        refl

-- A slice that is longer than what is left of the candidate leads to a panic.
pub match_from_panics :
    {F : Type 0} (lib : Floats F) (base : NodePath F) (s : Slice) (n : ℕ) (i : ℤ) (p : NodePath F)
    → i <ℤ pos (suc n)
    → match_from lib base s (suc n) i p ≡ none
unfolding match_from settle
match_from_panics lib base s n i [] h = rw (suc_ne_zero n) refl
match_from_panics lib base s n i (x ∷ p) h =
    rw
      (
        suc_ne_zero n,
        ne_index i (suc n) (λ p. ground arith),
        match_from_panics lib base s n (i -ℤ pos 1) p (ground arith),
      )
      refl
