-- ===== src/Node/Choices.antt =====
-- node/container_meta_list.go: the definitions that a container shows, those of the chosen cases in
-- place of the choices.
pub mod Flatten
pub mod Rounds
pub mod Ends
mod Tests
use c2g.Common.{
  ℕ, zero, suc, List, [], ◌∷◌, Bytes, bytes_eq, Option, none, some, Result, ok, err, ◌>>=◌,
  if◌then◌else◌,
}
use c2g.Meta.Defs.{
  Def, Defs, ChoiceCase, Cases, leaf, container, list, choice, nil, more, case_of, no_cases, one_of,
}

-- `panics` is the panic on an error of Choose.
pub data Stop : Type 0 where
  panics out_of_fuel : Stop

-- `Node.Choose` on a selection: an error, no case, or the name of a case of the choice.
abbrev pub Choose : Type 0
Choose = Bytes → Cases → Option (Option Bytes)

-- The case that a name stands for.
abbrev pub case_defs : Bytes → Cases → Defs
case_defs k no_cases = nil
case_defs k (one_of (case_of x ds) cs) = if bytes_eq x k then ds else case_defs k cs

-- `containerMetaList` by its fields next and main, without and with a choiceCase.
pub data Iter : Type 0 where
  plain : Option Def → Option Defs → Iter
  within : Option Def → Option Defs → Iter → Iter

-- The field next.
abbrev pub next_of : Iter → Option Def
next_of (plain nx main) = nx
next_of (within nx main sub) = nx

-- The loop of `lookAhead` behind an m that is not nil; `found` is the iterator with m for its next,
-- `skipped` the one that the loop goes on with where m is a choice with no case chosen.
abbrev pub on_meta :
    Choose → (Iter → Result Stop Iter) → Def → Option Defs → Iter → Iter → Result Stop Iter
on_meta choose look (choice x cs) main skipped found = elim (choose x cs) [
  | none ↦ err panics
  | some none ↦ look skipped
  | some (some k) ↦ look (plain none (some (case_defs k cs))) >>= λ sub. look (within none main sub)
]
on_meta choose look m main skipped found = ok found

-- `lookAhead`, with its loop and that of the iterator of a case on one fuel.
unfoldable pub look_ahead : Choose → ℕ → Iter → Result Stop Iter
look_ahead choose zero i = err out_of_fuel
look_ahead choose (suc n) (plain _ none) = ok (plain none none)
look_ahead choose (suc n) (plain _ (some nil)) = ok (plain none none)
look_ahead choose (suc n) (plain _ (some (more m ds))) =
    on_meta choose (look_ahead choose n) m (some ds) (plain none (some ds))
      (plain (some m) (some ds))
look_ahead choose (suc n) (within _ main sub) = elim (next_of sub) [
  | none ↦ look_ahead choose n sub >>= λ _. look_ahead choose n (plain none main)
  | some m ↦ look_ahead choose n sub >>= λ sub'.
      on_meta choose (look_ahead choose n) m main (within none main sub')
        (within (some m) main sub')
]

-- `newContainerMetaList` and `newChoiceCaseIterator`
unfoldable pub new_iter : Choose → ℕ → Defs → Result Stop Iter
unfolding look_ahead
new_iter choose n ds = look_ahead choose n (plain none (some ds))

-- `nextMeta`
unfoldable pub next_meta : Choose → ℕ → Iter → Result Stop (Option Def × Iter)
unfolding look_ahead
next_meta choose n i = look_ahead choose n i >>= λ i'. ok (next_of i, i')

-- `m := ml.nextMeta(); for m != nil { …; m = ml.nextMeta() }`: what m is in turn.
unfoldable pub visits : Choose → ℕ → ℕ → Iter → Result Stop (List Def)
unfolding next_meta
visits choose n zero i = err out_of_fuel
visits choose n (suc turns) i = next_meta choose n i >>= λ mi. elim mi.0 [
  | none ↦ ok []
  | some m ↦ visits choose n turns mi.1 >>= λ ms. ok (m ∷ ms)
]
