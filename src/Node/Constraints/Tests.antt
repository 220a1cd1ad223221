-- ===== src/Node/Constraints/Tests.antt =====
-- node/constraints.go on concrete constraints.
use c2g.Common.{
  ℕ, ◌≡◌, ◌↔◌, refl, sym, ap, ◌∙◌, true, false, [], ◌∷◌, codes, Option, none, some, ltb, arith,
  if◌then◌else◌,
}
use mathlib.Core.List.{Mem, reverse, reverse_perm, not-mem-nil, eq-or-mem_of_mem-cons}
use mathlib.Core.Logic.Or
use mathlib.Core.Path.{subst}
use c2g.Common.Int.{ℤ, pos}
use c2g.Node.Constraints.{
  Kind, Types, Check, Constraint, Entry, Constraints, GoLib, pre_field, add_constraint, check,
  compile,
}
use c2g.Node.Constraints.Order.{IsDistinct, IsGoLib, values, compile_unique}
use c2g.Node.Constraints.Verdict.{
  passes, accepts, IsReadOnly, Reachable, check-accepts, check-first_refusal,
}
use c2g.Node.Constraints.Sort.{plain, plain-IsGoLib}

-- Requests and errors that are numbers.
abbrev numbers : Types
numbers = record { Request = λ k. ℕ; Error = ℕ; Selection = ℕ; Context = ℕ }

-- A check of fields that refuses the requests from 5 on, with the error 7.
abbrev below_five : Check numbers pre_field
below_five r = if ltb r 5 then ((true, none), r) else ((false, some 7), r)

abbrev on_fields : (k : Kind) → Option (Check numbers k)
on_fields pre_field = some below_five
on_fields _ = none

abbrev limit : Constraint numbers
limit = record { checks = on_fields; context = none }

abbrev entry : Entry numbers
entry = record { id = codes "limit"; weight = pos 10; priority = pos 50; constraint = limit }

abbrev one : Constraints numbers
one = record { entries = (codes "limit", entry) ∷ []; compiled = none }

one-Reachable : Reachable plain one
unfolding add_constraint
one-Reachable =
    Reachable.added {self = record { entries = []; compiled = none }} (codes "limit") (pos 10)
      (pos 50) limit Reachable.empty refl

-- The request that a check leaves.
abbrev left_by : ℕ → Option (Check numbers pre_field) → ℕ
left_by r none = r
left_by r (some f) = (f r).1

below_five_writes_nothing : (r : ℕ) → (below_five r).1 ≡ r
below_five_writes_nothing r = ground arith

entry-IsReadOnly : IsReadOnly pre_field entry
entry-IsReadOnly f r e = sym (ap (left_by r) e) ∙ below_five_writes_nothing r

Entry-set : IsSet (Entry numbers)
Entry-set = hlevel

only_entry : (x : Entry numbers) → Mem x (values one) → x ≡ entry
only_entry x m =
    Or.elim (Entry-set x entry) (eq-or-mem_of_mem-cons m) (λ e. e) (λ n. absurd (not-mem-nil n))

check-accepts_example :
    (passes (check plain pre_field one 9).0.0 ≡ true)
    ↔ ((x : Entry numbers) → Mem x (values one) → accepts pre_field 9 x ≡ true)
check-accepts_example =
    check-accepts plain one pre_field 9 plain-IsGoLib one-Reachable
      (λ x m. subst (IsReadOnly pre_field) (sym (only_entry x m)) entry-IsReadOnly)

-- A second constraint of the same priority and a lower weight, added later.
abbrev first_entry : Entry numbers
first_entry = record entry { id = codes "first"; weight = pos 5 }

abbrev two : Constraints numbers
two = record {
  entries = (codes "first", first_entry) ∷ (codes "limit", entry) ∷ [];
  compiled = none;
}

-- Behind a check, with the list that it compiled.
abbrev checked_two : Constraints numbers
checked_two = record two { compiled = some (first_entry ∷ entry ∷ []) }

-- Another order of the loop over the map.
abbrev backwards : GoLib numbers
backwards = record plain { iterate = reverse }

backwards-IsGoLib : IsGoLib backwards
backwards-IsGoLib = record {
  iterate-perm = reverse_perm;
  sort-perm = plain-IsGoLib.sort-perm;
  sort-IsOrdered = plain-IsGoLib.sort-IsOrdered;
}

lower_weight : (a b : Entry numbers) → a ≡ first_entry → b ≡ entry → a.weight ≡ b.weight → ⊥
lower_weight a b p q w =
    let e : ◌≡◌ {A = ℤ} (pos 5) (pos 10) =
      ap (λ (x : Entry numbers). x.weight) (sym p) ∙ w ∙ ap (λ (x : Entry numbers). x.weight) q in
    cc

-- One of the two constraints.
either :
    (x : Entry numbers) {P : Type 0}
    → IsProp P
    → Mem x (values two)
    → (x ≡ first_entry → P)
    → (x ≡ entry → P)
    → P
either x h m f g = Or.elim h (eq-or-mem_of_mem-cons m) f (λ n. g (only_entry x n))

two-IsDistinct : IsDistinct (values two)
two-IsDistinct a b m n p w =
    either a (Entry-set a b) m
      (λ i. either b (Entry-set a b) n (λ j. i ∙ sym j) (λ j. absurd (lower_weight a b i j w)))
      (λ i.
        either b (Entry-set a b) n (λ j. absurd (lower_weight b a j i (sym w))) (λ j. i ∙ sym j))

compile_unique_example : (compile plain two).0 ≡ (compile backwards two).0
compile_unique_example =
    compile_unique plain backwards two plain-IsGoLib backwards-IsGoLib refl two-IsDistinct

check-first_refusal_example : (check plain pre_field one 9).0 ≡ ((false, some 7), 9)
unfolding compile
check-first_refusal_example =
    check-first_refusal plain one pre_field 9 [] [] entry below_five refl
      (λ x m. absurd (not-mem-nil m)) (λ x m. absurd (not-mem-nil m)) refl refl
