-- ===== src/Meta/Index/Visited.antt =====
-- meta/core_gen.go and node/container_meta_list.go: a container finds by its identifier each of the
-- definitions that the iterator visits.
use c2g.Common.{◌≡◌, List, [], ◌∷◌, ◌++◌, Bytes, bytes_eq, none, some, All, true, false}
use c2g.Meta.Defs.{
  Def, Defs, Cases, leaf, container, list, choice, nil, more, case_of, no_cases, one_of, ident_of,
}
use c2g.Meta.Index.Laws.{first_named}
use c2g.Node.Choices.Flatten.{Answer, flatten, flatten_def, flatten_case}

-- All definitions that a container can show, whatever the data: those in the cases of its choices in
-- place of the choices, however deep these stand in each other.
unfoldable mutual
  pub every_def : Def → List Def
  every_def (choice x cs) = every_case cs
  every_def d = d ∷ []

  pub every_in : Defs → List Def
  every_in nil = []
  every_in (more d ds) = every_def d ++ every_in ds

  pub every_case : Cases → List Def
  every_case no_cases = []
  every_case (one_of (case_of x ds) cs) = every_in ds ++ every_case cs

-- The same definitions as the list of a container.
abbrev pub defs_of : List Def → Defs
defs_of [] = nil
defs_of (d ∷ ds) = more d (defs_of ds)

abbrev pub HasNoChoice : Defs → Type 0
HasNoChoice nil = Unit {0}
HasNoChoice (more (choice x cs) ds) = ⊥
HasNoChoice (more d ds) = HasNoChoice ds

-- No choice stands in a case of another.
abbrev pub IsFlat : Cases → Type 0
IsFlat no_cases = Unit {0}
IsFlat (one_of (case_of x ds) cs) = HasNoChoice ds × IsFlat cs

abbrev pub IsShallow : List Def → Type 0
IsShallow [] = Unit {0}
IsShallow (choice x cs ∷ ds) = IsFlat cs × IsShallow ds
IsShallow (d ∷ ds) = IsShallow ds

module _ (P : Def → Type 0) where
  All-left : (k l : List Def) → All P (k ++ l) → All P k
  All-left [] l h = tt
  All-left (d ∷ k) l h = (h.0, All-left k l h.1)

  All-right : (k l : List Def) → All P (k ++ l) → All P l
  All-right [] l h = h
  All-right (d ∷ k) l h = All-right k l h.1

  All-both : (k l : List Def) → All P k → All P l → All P (k ++ l)
  All-both [] l g h = h
  All-both (d ∷ k) l g h = (g.0, All-both k l g.1 h)

  -- What holds of all definitions holds of those that the iterator visits.
  mutual
    unfolding every_def flatten

    All-flatten_def : (a : Answer) (d : Def) → All P (every_def d) → All P (flatten_def a d)
    All-flatten_def a (choice x cs) h =
        elim (a x cs) as (λ o. All P (elim o [ none ↦ [] | some k ↦ flatten_case a k cs ])) [
          | none ↦ tt
          | some k ↦ All-flatten_case a k cs h
        ]
    All-flatten_def a (leaf x) h = h
    All-flatten_def a (container x ds) h = h
    All-flatten_def a (list x ds) h = h

    All-flatten : (a : Answer) (ds : Defs) → All P (every_in ds) → All P (flatten a ds)
    All-flatten a nil h = tt
    All-flatten a (more d ds) h =
        All-both (flatten_def a d) (flatten a ds)
          (All-flatten_def a d (All-left (every_def d) (every_in ds) h))
          (All-flatten a ds (All-right (every_def d) (every_in ds) h))

    All-flatten_case :
        (a : Answer) (k : Bytes) (cs : Cases) → All P (every_case cs) → All P (flatten_case a k cs)
    All-flatten_case a k no_cases h = tt
    All-flatten_case a k (one_of (case_of x ds) cs) h =
        elim (bytes_eq x k)
          as (λ b. All P (elim b [ true ↦ flatten a ds | false ↦ flatten_case a k cs ])) [
            | true ↦ All-flatten a ds (All-left (every_in ds) (every_case cs) h)
            | false ↦ All-flatten_case a k cs (All-right (every_in ds) (every_case cs) h)
          ]

-- Each of distinct definitions is the first of its identifier.
abbrev Firsts : List Def → List Def → Type 0
Firsts l = All (λ e. first_named (ident_of e) l ≡ some e)
