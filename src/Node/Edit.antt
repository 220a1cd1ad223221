-- ===== src/Node/Edit.antt =====
-- node/edit.go: the methods of selections that the editor calls, and the errors it returns.
pub mod Editor
pub mod Closed
pub mod Update
pub mod Nested
pub mod Returns
mod Memory
mod Tests
use c2g.Common.{
  ℕ, zero, suc, ◌+◌, List, [], ◌∷◌, Bytes, bytes_eq, Bool, true, false, not, ◌&&◌, ◌||◌, Option,
  none, some, Result, ok, err, if◌then◌else◌,
}
use c2g.Meta.Defs.{
  Def, Defs, ChoiceCase, Cases, leaf, container, list, choice, nil, more, case_of, no_cases, one_of,
  ident_of,
}
use c2g.Node.Choices.{Choose, Iter, Stop, case_defs, new_iter, next_meta, panics}
use c2g.Node.Choices.Flatten.{cost}

-- `editStrategy`; `other` is any int but those of the three constants.
pub data Strategy : Type 0 where
  upsert insert update other : Strategy

-- The errors of the editor itself, and those of the selections; `panicked` is a panic of lookAhead.
pub data EditError (E : Type 0) : Type 0 where
  selection : E → EditError E
  conflict not_found no_container no_item not_implemented : EditError E
  panicked out_of_fuel : EditError E

-- A call that may write to the destination, whose state is the last part of the result.
abbrev pub Call : Type 0 → Type 0 → Type 0 → Type 0
Call W E A = W → Result (EditError E) A × W

abbrev pub feed :
    {W E A B : Type 0} → Result (EditError E) A × W → (A → Call W E B) → Result (EditError E) B × W
feed (ok x, w) f = f x w
feed (err e, w) f = (err e, w)

infixl 5 ◌>>=◌ ◌>>◌
abbrev pub ◌>>=◌ : {W E A B : Type 0} → Call W E A → (A → Call W E B) → Call W E B
(c >>= f) w = feed (c w) f

abbrev pub ◌>>◌ : {W E B : Type 0} → Call W E (Unit {0}) → Call W E B → Call W E B
c >> d = c >>= λ _. d

-- A call whose error is dropped: its caller looks only at the selection, which is then nil.
abbrev pub quiet :
    {W E A : Type 0} → Result (EditError E) (Option A) × W → Result (EditError E) (Option A) × W
quiet (ok x, w) = (ok x, w)
quiet (err e, w) = (ok none, w)

abbrev pub sought : {W E A : Type 0} → Call W E (Option A) → Call W E (Option A)
sought c w = quiet (c w)

abbrev pub return : {W E A : Type 0} → A → Call W E A
return x w = (ok x, w)

abbrev pub fail : {W E A : Type 0} → EditError E → Call W E A
fail e w = (err e, w)

-- What SelectListItem gives row by row: the selections with their keys, an error, or the end.
pub data Rows (F K E : Type 0) : Type 0 where
  done : Rows F K E
  failed : E → Rows F K E
  row : F → List K → Rows F K E → Rows F K E

-- The methods of the two selections. The source is only read; its Choose answers without an error,
-- which would be a panic. `World` is what the nodes of the destination hold. A missing selection is
-- `none`. The three Booleans of begin_edit and end_edit are New, EditRoot and bubble, those of
-- to_child and to_item New.
pub record Selections : Type 1 where
  pub From : Type 0
  pub To : Type 0
  pub World : Type 0
  pub Value : Type 0
  pub Key : Type 0
  pub Error : Type 0
  pub choose_from : From → Bytes → Cases → Option Bytes
  pub get_value : From → Bytes → Bool → Result Error (Option Value)
  pub from_child : From → Def → Result Error (Option From)
  pub rows : From → Rows From Key Error
  pub choose_to : To → World → Choose
  pub set_value : To → Bytes → Value → Call World Error (Unit {0})
  pub clear_field : To → Bytes → Call World Error (Unit {0})
  pub to_child : To → Def → Bool → Call World Error (Option To)
  pub to_item : To → List Key → ℕ → Bool → Call World Error (Option To)
  pub find : To → Bytes → Call World Error (Option To)
  pub delete : To → Call World Error (Unit {0})
  pub begin_edit : To → Bool → Bool → Bool → Call World Error (Unit {0})
  pub end_edit : To → Bool → Bool → Bool → Call World Error (Unit {0})

-- `Parent()` of a definition where it is a case: the choice, and the name of the case.
abbrev pub Home : Type 0
Home = Option ((Bytes × Cases) × Bytes)

-- `if err != nil { return err }` on what the source says
abbrev pub lift : {W E A : Type 0} → Result E A → Call W E A
lift (ok x) = return x
lift (err e) = fail (selection e)

abbrev pub run_iter : {W E A : Type 0} → Result Stop A → Call W E A
run_iter (ok x) = return x
run_iter (err panics) = fail panicked
run_iter (err Stop.out_of_fuel) = fail out_of_fuel

-- A call that first looks at the state of the destination.
abbrev pub reading : {W E A : Type 0} → (W → Call W E A) → Call W E A
reading g w = g w w

abbrev pub has_any : {K : Type 0} → List K → Bool
has_any [] = false
has_any (k ∷ ks) = true
