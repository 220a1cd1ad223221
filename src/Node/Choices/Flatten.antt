-- ===== src/Node/Choices/Flatten.antt =====
-- node/container_meta_list.go: the definitions in which each choice is replaced by those of its
-- chosen case, and how many rounds the iterator needs for them.
use c2g.Common.{
  ℕ, ◌+◌, ◌≤◌, ◌≡◌, refl, List, [], ◌∷◌, ◌++◌, Bytes, bytes_eq, true, false, Option, none, some,
  arith, Bool-cases, inl, inr,
}
use c2g.Meta.Defs.{Def, Defs, Cases, choice, nil, more, case_of, no_cases, one_of}
use c2g.Node.Choices.{Choose, case_defs}

-- What the node answers for a choice: no case, or the name of one.
abbrev pub Answer : Type 0
Answer = Bytes → Cases → Option Bytes

abbrev pub choose_by : Answer → Choose
choose_by a x cs = some (a x cs)

-- The definitions with the choices replaced.
unfoldable mutual
  pub flatten : Answer → Defs → List Def
  flatten a nil = []
  flatten a (more d ds) = flatten_def a d ++ flatten a ds

  pub flatten_def : Answer → Def → List Def
  flatten_def a (choice x cs) = elim (a x cs) [ none ↦ [] | some k ↦ flatten_case a k cs ]
  flatten_def a d = d ∷ []

  pub flatten_case : Answer → Bytes → Cases → List Def
  flatten_case a k no_cases = []
  flatten_case a k (one_of (case_of x ds) cs) = elim (bytes_eq x k) [
    | true ↦ flatten a ds
    | false ↦ flatten_case a k cs
  ]

-- A bound on the rounds of the loop.
unfoldable mutual
  pub cost : Defs → ℕ
  cost nil = 0
  cost (more d ds) = 1 + cost_def d + cost ds

  pub cost_def : Def → ℕ
  cost_def (choice x cs) = 3 + cost_cases cs
  cost_def d = 0

  pub cost_cases : Cases → ℕ
  cost_cases no_cases = 0
  cost_cases (one_of (case_of x ds) cs) = cost ds + cost_cases cs

pub flatten_case-eq :
    (a : Answer) (k : Bytes) (cs : Cases) → flatten_case a k cs ≡ flatten a (case_defs k cs)
unfolding flatten
flatten_case-eq a k no_cases = refl
flatten_case-eq a k (one_of (case_of x ds) cs) = elim (Bool-cases (bytes_eq x k)) [
  | inl e ↦ rw (e, flatten_case) refl
  | inr e ↦ rw (e, flatten_case) (flatten_case-eq a k cs)
]

pub cost-case_defs : (k : Bytes) (cs : Cases) → cost (case_defs k cs) ≤ cost_cases cs
unfolding cost
cost-case_defs k no_cases = omega arith
cost-case_defs k (one_of (case_of x ds) cs) = elim (Bool-cases (bytes_eq x k)) [
  | inl e ↦ rw e (omega arith)
  | inr e ↦ rw e (omega (arith, cost-case_defs k cs))
]
