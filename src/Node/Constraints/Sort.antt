-- ===== src/Node/Constraints/Sort.antt =====
-- A sort by `Less` of node/constraints.go, for the tests: it does what `sort.Sort` promises.
use c2g.Common.{◌≡◌, ◌⊎◌, inl, inr, List, [], ◌∷◌, if◌then◌else◌, arith}
use mathlib.Core.List.{Perm, Pairwise, forall_mem-cons, not-mem-nil}
use mathlib.Core.List.Perm
use c2g.Node.Constraints.{Types, Entry, GoLib, less}
use c2g.Node.Constraints.Order.{IsBefore, IsOrdered, IsGoLib, IsBefore-trans, IsBefore-head}

module _ {T : Types} where
  abbrev pub insert : Entry T → List (Entry T) → List (Entry T)
  insert e [] = e ∷ []
  insert e (x ∷ xs) = let rest = insert e xs in if less x e then x ∷ rest else e ∷ x ∷ xs

  abbrev pub insertion_sort : List (Entry T) → List (Entry T)
  insertion_sort [] = []
  insertion_sort (e ∷ es) = insert e (insertion_sort es)

  insert-cases :
      (e x : Entry T) (xs : List (Entry T))
      → ((insert e (x ∷ xs) ≡ x ∷ insert e xs) × IsBefore x e)
        ⊎ ((insert e (x ∷ xs) ≡ e ∷ x ∷ xs) × IsBefore e x)
  insert-cases e x xs =
      let pe = e.priority in
      let px = x.priority in let we = e.weight in let wx = x.weight in ground arith

  insert-perm : (e : Entry T) (es : List (Entry T)) → Perm (insert e es) (e ∷ es)
  insert-perm e [] = Perm.rfl
  insert-perm e (x ∷ xs) = elim (insert-cases e x xs) [
    | inl (q, _) ↦ rw q (Perm.trans (Perm.cons x (insert-perm e xs)) (Perm.swap e x xs))
    | inr (q, _) ↦ rw q Perm.rfl
  ]

  pub insertion_sort-perm : (es : List (Entry T)) → Perm (insertion_sort es) es
  insertion_sort-perm [] = Perm.rfl
  insertion_sort-perm (e ∷ es) =
      Perm.trans (insert-perm e (insertion_sort es)) (Perm.cons e (insertion_sort-perm es))

  insert-IsOrdered : (e : Entry T) (es : List (Entry T)) → IsOrdered es → IsOrdered (insert e es)
  insert-IsOrdered e [] h = Pairwise.cons (λ x m. absurd (not-mem-nil m)) Pairwise.nil
  insert-IsOrdered e (x ∷ xs) (Pairwise.cons a h) = elim (insert-cases e x xs) [
    | inl (q, b) ↦ rw q (
        Pairwise.cons
          (λ y m.
            (forall_mem-cons {p = IsBefore x} (λ y. hlevel)).1 (b, a) y
              ((Perm.mem_iff (insert-perm e xs)).0 m))
          (insert-IsOrdered e xs h))
    | inr (q, b) ↦
        let s : IsOrdered (x ∷ xs) = Pairwise.cons a h in
        rw q (Pairwise.cons (λ y m. IsBefore-trans e x y b (IsBefore-head s y m)) s)
  ]

  pub insertion_sort-IsOrdered : (es : List (Entry T)) → IsOrdered (insertion_sort es)
  insertion_sort-IsOrdered [] = Pairwise.nil
  insertion_sort-IsOrdered (e ∷ es) =
      insert-IsOrdered e (insertion_sort es) (insertion_sort-IsOrdered es)

  -- A loop over the map in its own order, and this sort for every order.
  abbrev pub plain : GoLib T
  plain = record { iterate = λ es. es; sort = λ before es. insertion_sort es }

  pub plain-IsGoLib : IsGoLib plain
  plain-IsGoLib = record {
    iterate-perm = λ es. Perm.rfl;
    sort-perm = insertion_sort-perm;
    sort-IsOrdered = insertion_sort-IsOrdered;
  }
