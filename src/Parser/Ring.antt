-- ===== src/Parser/Ring.antt =====
-- parser/lexer.go: `pushToken` and `popToken`, on the slots `l.tokens` with their two indices.
pub mod Queue
pub mod Runs
use c2g.Common.{ℕ, zero, suc, ◌+◌, ◌%◌, List, [], ◌∷◌, ◌++◌, Option, none, some, length}

pub record Ring {ℓ} (A : Type ℓ) : Type ℓ where
  pub slots : List A
  pub head : ℕ
  pub tail : ℕ

module _ {ℓ} {A : Type ℓ} where
  abbrev pub get_elem? : List A → ℕ → Option A
  get_elem? [] i = none
  get_elem? (x ∷ xs) zero = some x
  get_elem? (x ∷ xs) (suc i) = get_elem? xs i

  abbrev pub set : List A → ℕ → A → List A
  set [] i v = []
  set (x ∷ xs) zero v = v ∷ xs
  set (x ∷ xs) (suc i) v = x ∷ set xs i v

  -- `pushToken`; `none` is an index out of range.
  unfoldable pub push : A → Ring A → Option (Ring A)
  push t r = elim (get_elem? r.slots r.head) [
    | none ↦ none
    | some old ↦
        some (record r { slots = set r.slots r.head t; head = (r.head + 1) % length r.slots })
  ]

  -- `popToken`
  unfoldable pub pop : Ring A → Option (A × Ring A)
  pop r = elim (get_elem? r.slots r.tail) [
    | none ↦ none
    | some t ↦ some (t, record r { tail = (r.tail + 1) % length r.slots })
  ]

  -- `l.tokens = append(l.tokens, t)`
  abbrev pub append_slot : A → Ring A → Ring A
  append_slot t r = record r { slots = r.slots ++ t ∷ [] }
