-- ===== src/Node/ListRange/Rows.antt =====
-- node/list_range.go: the rows that an iteration under a range visits.
use c2g.Common.{
  ℕ, zero, suc, ◌+◌, ◌-◌, ◌^◌, ◌<◌, ◌≤◌, ◌≡◌, refl, ◌∙◌, Bool, true, false, List, [], ◌∷◌, Option,
  none, some, arith, ◌&&◌, not,
}
use c2g.Common.Int.{ℤ, pos, negsuc, ◌-ℤ◌, leb_ℤ, wrap_signed}
use c2g.Common.Int.Wrap.{wrap_signed_of_IsSigned}
use c2g.Val.Dyn.{Floats}
use c2g.Val.Value.Enums.{eq_ℤ}
use c2g.Node.Path.{NodePath}
use c2g.Node.Matcher.{Slice}
use c2g.Node.Matcher.Match.{path_matches}
use c2g.Node.ListRange.{ListRange, ListRequest, bound, check_list, next_request, rows}

-- `k`, `k + 1` and so on: `n` rows.
abbrev pub count : ℕ → ℕ → List ℤ
count k zero = []
count k (suc n) = pos k ∷ count (suc k) n

next_row : (k : ℕ) → k < 2 ^ 63 - 1 → wrap_signed (2 ^ 63) (pos k -ℤ negsuc 0) ≡ pos (suc k)
next_row k h = wrap_signed_of_IsSigned (2 ^ 63) (pos k -ℤ negsuc 0) (ground arith) ∙ ground arith

stops : (k : ℕ) → (leb_ℤ (pos k) (pos k) && not (eq_ℤ (pos k) (negsuc 0))) ≡ true
stops k = ground arith

goes_on : (e k : ℕ) → k < e → (leb_ℤ (pos e) (pos k) && not (eq_ℤ (pos e) (negsuc 0))) ≡ false
goes_on e k h = ground arith

-- One round of the iteration.
one_round :
    {F : Type 0} (answer : Option (Bool × ListRequest F)) (r : ListRequest F)
    (again : ListRequest F → Option (List ℤ)) (rest : List ℤ)
    → answer ≡ some (true, r)
    → again r ≡ some rest
    → (elim answer [
      | none ↦ none
      | some (false, r') ↦ some []
      | some (true, r') ↦ elim (again r') [ none ↦ none | some rest' ↦ some (r'.row64 ∷ rest') ]
    ])
      ≡ some (r.row64 ∷ rest)
one_round answer r again rest p q = rw (p, q) refl

last_round :
    {F : Type 0} (answer : Option (Bool × ListRequest F)) (r : ListRequest F)
    (again : ListRequest F → Option (List ℤ))
    → answer ≡ some (false, r)
    → (elim answer [
      | none ↦ none
      | some (false, r') ↦ some []
      | some (true, r') ↦ elim (again r') [ none ↦ none | some rest' ↦ some (r'.row64 ∷ rest') ]
    ])
      ≡ some []
last_round answer r again p = rw p refl

-- The range of a selector from one row to another.
abbrev pub from_to : List Slice → ℕ → ℕ → ListRange
from_to selector s e = record { selector = selector; start_row = pos s; end_row = pos e }

abbrev pub first_request : {F : Type 0} → NodePath F → NodePath F → ListRequest F
first_request base path = record {
  navigation = false;
  base = base;
  path = path;
  first = true;
  start_row64 = pos 0;
  row64 = pos 0;
}

module _ {F : Type 0} (lib : Floats F) (selector : List Slice) (base path : NodePath F)
    (m : path_matches lib selector base path ≡ some true) where
  abbrev later : ℕ → ℕ → ListRequest F
  later s k = record {
    navigation = false;
    base = base;
    path = path;
    first = false;
    start_row64 = pos s;
    row64 = pos k;
  }

  abbrev started : ℕ → ListRequest F
  started s = record {
    navigation = false;
    base = base;
    path = path;
    first = true;
    start_row64 = pos s;
    row64 = pos s;
  }

  next-later : (s k : ℕ) → k < 2 ^ 63 - 1 → next_request (later s k) ≡ later s (suc k)
  unfolding next_request
  next-later s k h = rw (next_row k h) refl

  next-started : (s : ℕ) → s < 2 ^ 63 - 1 → next_request (started s) ≡ later s (suc s)
  unfolding next_request
  next-started s h = rw (next_row s h) refl

  check_later :
      (s e k : ℕ) (b : Bool)
      → (leb_ℤ (pos e) (pos k) && not (eq_ℤ (pos e) (negsuc 0))) ≡ not b
      → check_list lib (from_to selector s e) (later s k) ≡ some (b, later s k)
  unfolding check_list bound
  check_later s e k true h = rw (m, h) refl
  check_later s e k false h = rw (m, h) refl

  check_first :
      (s e : ℕ)
      → check_list lib (from_to selector s e) (first_request base path) ≡ some (true, started s)
  unfolding check_list bound
  check_first s e = rw m refl

  rows-later :
      (d n s e k : ℕ)
      → e < 2 ^ 63
      → e ≡ k + d
      → d ≤ n
      → rows lib (from_to selector s e) n (later s k) ≡ some (count k d)
  unfolding rows
  rows-later zero zero s e k h p q = refl
  rows-later (suc d) zero s e k h p q = absurd (omega arith)
  rows-later zero (suc n) s e k h p q =
      last_round (check_list lib (from_to selector s e) (later s k)) (later s k)
        (λ r. rows lib (from_to selector s e) n (next_request r))
        (check_later s e k false (let same : e ≡ k = omega (arith, p) in rw same (stops k)))
  rows-later (suc d) (suc n) s e k h p q =
      one_round (check_list lib (from_to selector s e) (later s k)) (later s k)
        (λ r. rows lib (from_to selector s e) n (next_request r)) (count (suc k) d)
        (check_later s e k true (goes_on e k (omega (arith, p))))
        (rw (next-later s k (omega (arith, p)))
          (rows-later d n s e (suc k) h (omega (arith, p)) (omega arith)))

  -- Under a range from `s` to `e` whose selector matches the list, an iteration that is not a
  -- navigation asks for the rows from `s` on, each once and in order, up to the one before `e`, and
  -- then stops: rounds beyond those ask for nothing. The first row is asked for in any case.
  pub rows-from_to :
      (n s d : ℕ)
      → s + suc d < 2 ^ 63
      → suc d ≤ n
      → rows lib (from_to selector s (s + suc d)) n (first_request base path)
        ≡ some (count s (suc d))
  unfolding rows
  rows-from_to zero s d h p = absurd (omega arith)
  rows-from_to (suc n) s d h p =
      one_round (check_list lib (from_to selector s (s + suc d)) (first_request base path))
        (started s) (λ r. rows lib (from_to selector s (s + suc d)) n (next_request r))
        (count (suc s) d) (check_first s (s + suc d))
        (rw (next-started s (omega arith))
          (rows-later d n s (s + suc d) (suc s) h (omega arith) (omega arith)))
