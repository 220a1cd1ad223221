-- ===== src/Node/Constraints.antt =====
-- node/constraints.go: the constraints of a selection, and the order in which a request meets them.
pub mod Order
pub mod Verdict
mod Sort
mod Tests
use c2g.Common.{
  Bool, true, false, not, ◌&&◌, ◌||◌, List, [], ◌∷◌, Bytes, bytes_eq, Option, none, some, map,
  if◌then◌else◌,
}
use c2g.Common.Int.{ℤ, ltb_ℤ}
use c2g.Val.Value.Enums.{eq_ℤ}

-- The interfaces a constraint can implement, but for `ContextConstraint`.
pub data Kind : Type 0 where
  pre_list post_list pre_container post_container pre_field post_field pre_action post_action
        notify_filter :
      Kind

-- The types of the requests, each with all that a check is given and can write to, those of Go's
-- errors, of selections and of contexts.
pub record Types : Type 1 where
  pub Request : Kind → Type 0
  pub Error : Type 0
  pub Selection : Type 0
  pub Context : Type 0

abbrev pub Verdict : Types → Type 0
Verdict T = Bool × Option T.Error

-- A check may write to what the request points to.
abbrev pub Check : Types → Kind → Type 0
Check T k = T.Request k → Verdict T × T.Request k

-- A value of an interface type: the methods it has.
pub record Constraint (T : Types) : Type 0 where
  pub checks : (k : Kind) → Option (Check T k)
  pub context : Option (T.Selection → T.Context)

-- `entry`; its fields for the interfaces are those of the constraint.
pub record Entry (T : Types) : Type 0 where
  pub id : Bytes
  pub weight : ℤ
  pub priority : ℤ
  pub constraint : Constraint T

-- `Constraints`; a nil map is an empty one.
pub record Constraints (T : Types) : Type 0 where
  pub entries : List (Bytes × Entry T)
  pub compiled : Option (List (Entry T))

-- What is not in the repository: the order of a loop over a map, and `sort.Sort`.
pub record GoLib (T : Types) : Type 0 where
  pub iterate : List (Bytes × Entry T) → List (Bytes × Entry T)
  pub sort : (Entry T → Entry T → Bool) → List (Entry T) → List (Entry T)

abbrev pub has : {A : Type 0} → Option A → Bool
has none = false
has (some x) = true

module _ {T : Types} where
  -- `NewConstraints`
  unfoldable pub new_constraints : GoLib T → Constraints T → Constraints T
  new_constraints lib parent = record { entries = lib.iterate parent.entries; compiled = none }

  -- `Less`
  abbrev pub less : Entry T → Entry T → Bool
  less a b =
      if not (eq_ℤ a.priority b.priority)
      then ltb_ℤ a.priority b.priority
      else ltb_ℤ a.weight b.weight

  -- `atLeastOneMatch`
  unfoldable pub has_match : Constraint T → Bool
  has_match c =
      has (c.checks pre_list)
      || (has (c.checks post_list)
          || (has (c.checks pre_container)
              || (has (c.checks post_container)
                  || (has (c.checks pre_field)
                      || (has (c.checks post_field)
                          || (has (c.checks pre_action)
                              || (has (c.checks post_action)
                                  || (has (c.checks notify_filter) || has c.context))))))))

  abbrev pub remove : Bytes → List (Bytes × Entry T) → List (Bytes × Entry T)
  remove id [] = []
  remove id ((k, e) ∷ es) = if bytes_eq k id then remove id es else (k, e) ∷ remove id es

  -- `AddConstraint`; `none` is its panic.
  unfoldable pub add_constraint :
      Bytes → ℤ → ℤ → Constraint T → Constraints T → Option (Constraints T)
  unfolding has_match
  add_constraint id weight priority constraint self =
      let e : Entry T = record {
        id = id;
        weight = weight;
        priority = priority;
        constraint = constraint;
      } in
      if has_match constraint
      then some (record { entries = (id, e) ∷ remove id self.entries; compiled = none })
      else none

  abbrev pub find : Bytes → List (Bytes × Entry T) → Option (Entry T)
  find id [] = none
  find id ((k, e) ∷ es) = if bytes_eq k id then some e else find id es

  -- `Constraint`
  unfoldable pub constraint_of : Bytes → Constraints T → Option (Constraint T)
  constraint_of id self = elim (find id self.entries) [ none ↦ none | some e ↦ some e.constraint ]

  -- `compile`
  unfoldable pub compile : GoLib T → Constraints T → List (Entry T) × Constraints T
  compile lib self = elim self.compiled [
    | some compiled ↦ (compiled, self)
    | none ↦
        let compiled = lib.sort less (map (λ ke. ke.1) (lib.iterate self.entries)) in
        (compiled, record self { compiled = some compiled })
  ]

  -- The loop of the nine methods `Check…Constraints`.
  unfoldable pub check_from : (k : Kind) → List (Entry T) → Check T k
  check_from k [] r = ((true, none), r)
  check_from k (e ∷ es) r = elim (e.constraint.checks k) [
    | none ↦ check_from k es r
    | some check ↦
        let ((more, x), r') = check r in
        if more && not (has x) then check_from k es r' else ((more, x), r')
  ]

  -- `CheckListPreConstraints` to `CheckNotifyFilterConstraints`
  unfoldable pub check :
      GoLib T → (k : Kind) → Constraints T → T.Request k → (Verdict T × T.Request k) × Constraints T
  unfolding compile check_from
  check lib k self r = let (es, self') = compile lib self in (check_from k es r, self')

  -- The loop of `ContextConstraint`, which hands every constraint the same selection.
  unfoldable pub context_from : List (Entry T) → T.Selection → T.Context → T.Context
  context_from [] s c = c
  context_from (e ∷ es) s c = elim e.constraint.context [
    | none ↦ context_from es s c
    | some f ↦ context_from es s (f s)
  ]

  -- `ContextConstraint`, on a selection and its field Context.
  unfoldable pub context_constraint :
      GoLib T → Constraints T → T.Selection → T.Context → T.Context × Constraints T
  unfolding compile context_from
  context_constraint lib self s c =
      let (es, self') = compile lib self in (context_from es s c, self')
