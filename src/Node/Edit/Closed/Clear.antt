-- ===== src/Node/Edit/Closed/Clear.antt =====
-- node/edit.go: clearing a case keeps what the calls in it keep.
use c2g.Common.{ℕ, zero, suc, Bytes, Option, none, some, Result, ok, err}
use c2g.Meta.Defs.{Def, Defs, leaf, container, list, choice}
use c2g.Node.Choices.{Stop, panics, Iter, new_iter, next_meta}
use c2g.Node.Edit.{panicked, out_of_fuel, ◌>>◌, return, fail, sought, Selections, run_iter}
use c2g.Node.Edit.Editor.{clear_def, clear_from, clear_choice_case}
use c2g.Node.Edit.Closed.{Scope, Predicate, Closed}

-- The calls of clearChoiceCase, and the end of the fuel.
pub record Clearing (S : Selections) (C : Predicate S) : Type 1 where
  pub no_fuel : {A : Type 0} → C A (fail out_of_fuel)
  pub clear : (t : S.To) (x : Bytes) → C (Unit {0}) (S.clear_field t x)
  pub find : (t : S.To) (x : Bytes) → C (Option S.To) (sought (S.find t x))
  pub delete : (t : S.To) → C (Unit {0}) (S.delete t)

module _ (S : Selections) {scope : Scope} {C : Predicate S} (h : Closed S scope C) where
  iter-C : Clearing S C → {A : Type 0} (r : Result Stop A) → C A (run_iter r)
  iter-C k (ok x) = h.pure x
  iter-C k (err panics) = h.raise panicked tt
  iter-C k (err Stop.out_of_fuel) = k.no_fuel

  deleted-C :
      Clearing S C
      → (o : Option S.To) → C (Unit {0}) (elim o [ none ↦ return tt | some t ↦ S.delete t ])
  deleted-C k none = h.pure tt
  deleted-C k (some t) = k.delete t

  clear_def-C : Clearing S C → (t : S.To) (m : Def) → C (Unit {0}) (clear_def S t m)
  unfolding clear_def
  clear_def-C k t (leaf x) = k.clear t x
  clear_def-C k t (container x ds) = h.chain _ _ (k.find t x) (deleted-C k)
  clear_def-C k t (list x ds) = h.chain _ _ (k.find t x) (deleted-C k)
  clear_def-C k t (choice x cs) = h.chain _ _ (k.find t x) (deleted-C k)

  clear_from-C :
      Clearing S C → (n turns : ℕ) (t : S.To) (i : Iter) → C (Unit {0}) (clear_from S n turns t i)
  unfolding clear_from
  clear_from-C k n zero t i = k.no_fuel
  clear_from-C k n (suc turns) t i =
      h.chain _ _ (h.looks _ (λ w. iter-C k (next_meta (S.choose_to t w) n i)))
        (λ mi. on (clear_from-C k n turns t) mi.0 mi.1)
    where
      on :
          ((j : Iter) → C (Unit {0}) (clear_from S n turns t j))
          → (o : Option Def) (j : Iter)
          → C
              (Unit {0})
              (elim o [ none ↦ return tt | some m ↦ clear_def S t m >> clear_from S n turns t j ])
      on ih none j = h.pure tt
      on ih (some m) j = h.chain _ _ (clear_def-C k t m) (λ _. ih j)

  pub clear_choice_case-C :
      Clearing S C → (t : S.To) (ds : Defs) → C (Unit {0}) (clear_choice_case S t ds)
  unfolding clear_choice_case
  clear_choice_case-C k t ds =
      h.chain _ _ (h.looks _ (λ w. iter-C k (new_iter (S.choose_to t w) _ ds)))
        (clear_from-C k _ _ t)
