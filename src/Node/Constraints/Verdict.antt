-- ===== src/Node/Constraints/Verdict.antt =====
-- node/constraints.go: what the checks of all constraints say together.
use c2g.Common.{
  ◌≡◌, ◌↔◌, ◌⊎◌, refl, sym, ap, ◌∙◌, Bool, true, false, not, ◌&&◌, List, [], ◌∷◌, ◌++◌, Bytes,
  Option, none, some, arith, if◌then◌else◌,
}
use mathlib.Core.List.{
  Mem, Perm, mem-cons_self, mem-cons_of_mem, not-mem-nil, forall_mem-cons, Pairwise,
}
use mathlib.Core.List.Pairwise
use mathlib.Core.List.Perm
use mathlib.Core.Path.{subst}
use c2g.Common.Int.{ℤ, ◌≤ℤ◌, ◌<ℤ◌}
use c2g.Node.Constraints.{
  Kind, Types, Check, Constraint, Entry, Constraints, GoLib, has, new_constraints, has_match,
  add_constraint, compile, check_from, check, context_constraint,
}
use c2g.Node.Constraints.Order.{IsBefore, IsGoLib, values, compile-perm, compile-IsOrdered}

-- What a caller tests: `!proceed || constraintErr != nil`, negated.
abbrev pub passes : {E : Type 0} → Bool × Option E → Bool
passes (more, x) = more && not (has x)

some_of_if : {A : Type 0} {x y : A} (b : Bool) → (if b then some x else none) ≡ some y → x ≡ y
some_of_if true e = ground arith
some_of_if false e = ground arith

passes-if :
    {E R : Type 0} (b : Bool) (v : Bool × Option E) (r : R) (x : (Bool × Option E) × R)
    → passes v ≡ b
    → passes (if b then x else (v, r)).0 ≡ (b && passes x.0)
passes-if true v r x e = refl
passes-if false v r x e = e

module _ {T : Types} where
  -- What one constraint says of a request.
  abbrev pub accepts : (k : Kind) → T.Request k → Entry T → Bool
  accepts k r e = elim (e.constraint.checks k) [ none ↦ true | some check ↦ passes (check r).0 ]

  -- The check of a constraint writes nothing.
  abbrev pub IsReadOnly : Kind → Entry T → Type 0
  IsReadOnly k e =
      (check : Check T k) (r : T.Request k) → e.constraint.checks k ≡ some check → (check r).1 ≡ r

  -- The lower priority comes first, and of two of one priority the lower weight.
  abbrev pub ComesFirst : Entry T → Entry T → Type 0
  ComesFirst a b = (a.priority <ℤ b.priority) ⊎ ((a.priority ≡ b.priority) × (a.weight ≤ℤ b.weight))

  IsBefore-ComesFirst : (a b : Entry T) → IsBefore a b → ComesFirst a b
  IsBefore-ComesFirst a b h =
      let pa = a.priority in
      let pb = b.priority in let wa = a.weight in let wb = b.weight in ground arith

  -- The list holds the constraints of the map, each once, by priority and weight.
  abbrev pub Lists : List (Entry T) → Constraints T → Type 0
  Lists es self = Perm es (values self) × Pairwise ComesFirst es

  -- The compiled list, where there is one, is that of the entries.
  abbrev pub IsCurrent : Constraints T → Type 0
  IsCurrent self = elim self.compiled [ none ↦ Unit {0} | some es ↦ Lists es self ]

  -- The states that the functions lead to.
  pub data Reachable (lib : GoLib T) : Constraints T → Type 0 where
    empty : Reachable lib (record { entries = []; compiled = none })
    added :
        {self self' : Constraints T} (id : Bytes) (weight priority : ℤ) (c : Constraint T)
        → Reachable lib self
        → add_constraint id weight priority c self ≡ some self'
        → Reachable lib self'
    checked :
        {self self' : Constraints T} (k : Kind) (r : T.Request k)
        → Reachable lib self
        → (check lib k self r).1 ≡ self'
        → Reachable lib self'
    contextualized :
        {self self' : Constraints T} (s : T.Selection) (c : T.Context)
        → Reachable lib self
        → (context_constraint lib self s c).1 ≡ self'
        → Reachable lib self'
    copied : {self : Constraints T} → Reachable lib self → Reachable lib (new_constraints lib self)

  -- What `compile` returns and leaves.
  record Compiled (lib : GoLib T) (self : Constraints T) : Type 0 where
    listed : Lists (compile lib self).0 self
    current : IsCurrent (compile lib self).1
    same_entries : (compile lib self).1.entries ≡ self.entries

  compile-Compiled :
      (lib : GoLib T) → IsGoLib lib → (self : Constraints T) → IsCurrent self → Compiled lib self
  unfolding compile
  compile-Compiled lib go self h = by_field self.compiled h
    where
      by_field :
          (o : Option (List (Entry T)))
          → IsCurrent (record { entries = self.entries; compiled = o })
          → Compiled lib (record { entries = self.entries; compiled = o })
      by_field (some es) h = record { listed = h; current = h; same_entries = refl }
      by_field none h =
          let fresh : Constraints T = record { entries = self.entries; compiled = none } in
          let p = compile-perm lib go fresh refl in
          let o = Pairwise.imp IsBefore-ComesFirst (compile-IsOrdered lib go fresh refl) in
          record { listed = (p, o); current = (p, o); same_entries = refl }

  -- In every state that the functions lead to, the compiled list, where one is kept, holds the
  -- constraints of the map.
  reachable_lem :
      (lib : GoLib T) (self : Constraints T) → IsGoLib lib → Reachable lib self → IsCurrent self
  unfolding add_constraint new_constraints check context_constraint
  reachable_lem lib self go (Reachable.empty) = tt
  reachable_lem lib self go (Reachable.added {self = old} id weight priority c h e) =
      subst IsCurrent (some_of_if (has_match c) e) tt
  reachable_lem lib self go (Reachable.checked {self = old} k r h e) =
      subst IsCurrent e (compile-Compiled lib go old (reachable_lem lib old go h)).current
  reachable_lem lib self go (Reachable.contextualized {self = old} s c h e) =
      subst IsCurrent e (compile-Compiled lib go old (reachable_lem lib old go h)).current
  reachable_lem lib self go (Reachable.copied {self = old} h) = tt

  passes-cons :
      (k : Kind) (e : Entry T) (es : List (Entry T)) (r : T.Request k)
      → IsReadOnly k e
      → passes (check_from k (e ∷ es) r).0 ≡ (accepts k r e && passes (check_from k es r).0)
  unfolding check_from
  passes-cons k e es r w = by_check (e.constraint.checks k) refl
    where
      by_check :
          (o : Option (Check T k))
          → e.constraint.checks k ≡ o
          → passes (check_from k (e ∷ es) r).0 ≡ (accepts k r e && passes (check_from k es r).0)
      by_check none q = rw (q, check_from, accepts) refl
      by_check (some f) q =
          rw (q, check_from, accepts)
            (passes-if (passes (f r).0) (f r).0 (f r).1 (check_from k es (f r).1) refl
              ∙ ap (λ r'. passes (f r).0 && passes (check_from k es r').0) (w f r q))

  -- The loop over constraints that write nothing: whether the request passes, and the request.
  check_from-accepts :
      (k : Kind) (es : List (Entry T)) (r : T.Request k)
      → ((e : Entry T) → Mem e es → IsReadOnly k e)
      → (passes (check_from k es r).0 ≡ true) ↔ ((e : Entry T) → Mem e es → accepts k r e ≡ true)
  unfolding check_from
  check_from-accepts k [] r w = (λ _ e m. absurd (not-mem-nil m), λ _. refl)
  check_from-accepts k (e ∷ es) r w =
      let (to, from) = check_from-accepts k es r (λ x m. w x (mem-cons_of_mem e m)) in
      let step = passes-cons k e es r (w e mem-cons_self) in
      let both = forall_mem-cons {p = λ x. accepts k r x ≡ true} (λ x. hlevel) in
      (
        λ p. both.1 (ground (arith, step), to (ground (arith, step))),
        λ a. let (here, rest) = both.0 a in let last = from rest in ground (arith, step),
      )

  -- A request passes exactly where every constraint of the map lets it, in every state that the
  -- functions lead to and whatever order Go's loops over maps have, provided that the checks write
  -- nothing.
  pub check-accepts :
      (lib : GoLib T) (self : Constraints T) (k : Kind) (r : T.Request k)
      → IsGoLib lib
      → Reachable lib self
      → ((e : Entry T) → Mem e (values self) → IsReadOnly k e)
      → (passes (check lib k self r).0.0 ≡ true)
        ↔ ((e : Entry T) → Mem e (values self) → accepts k r e ≡ true)
  unfolding check
  check-accepts lib self k r go h w =
      let c = compile-Compiled lib go self (reachable_lem lib self go h) in
      let m = λ (e : Entry T). Perm.mem_iff c.listed.0 in
      let (to, from) = check_from-accepts k (compile lib self).0 r (λ e x. w e ((m e).0 x)) in
      (λ p e x. to p e ((m e).1 x), λ a. from (λ e x. a e ((m e).0 x)))

  accepts-some :
      (k : Kind) (r : T.Request k) (e : Entry T) (f : Check T k)
      → e.constraint.checks k ≡ some f
      → accepts k r e ≡ passes (f r).0
  accepts-some k r e f q = rw (q, accepts) refl

  -- The first constraint in order that refuses a request gives the answer, its error with it, where
  -- those in front of it write nothing: those behind it are not asked.
  pub check-first_refusal :
      (lib : GoLib T) (self : Constraints T) (k : Kind) (r : T.Request k)
      (before behind : List (Entry T)) (e : Entry T) (f : Check T k)
      → (compile lib self).0 ≡ before ++ e ∷ behind
      → ((x : Entry T) → Mem x before → IsReadOnly k x)
      → ((x : Entry T) → Mem x before → accepts k r x ≡ true)
      → e.constraint.checks k ≡ some f
      → passes (f r).0 ≡ false
      → (check lib k self r).0 ≡ f r
  unfolding check check_from
  check-first_refusal lib self k r before behind e f order w a c n = rw order (loop before w a)
    where
      first : check_from k (e ∷ behind) r ≡ f r
      first = rw (c, check_from, n) refl

      loop :
          (es : List (Entry T))
          → ((x : Entry T) → Mem x es → IsReadOnly k x)
          → ((x : Entry T) → Mem x es → accepts k r x ≡ true)
          → check_from k (es ++ e ∷ behind) r ≡ f r
      loop [] w a = first
      loop (x ∷ es) w a =
          skip (x.constraint.checks k) refl
          ∙ loop es (λ y m. w y (mem-cons_of_mem x m)) (λ y m. a y (mem-cons_of_mem x m))
        where
          skip :
              (o : Option (Check T k))
              → x.constraint.checks k ≡ o
              → check_from k (x ∷ (es ++ e ∷ behind)) r ≡ check_from k (es ++ e ∷ behind) r
          skip none q = rw (q, check_from) refl
          skip (some g) q =
              let yes : passes (g r).0 ≡ true = sym (accepts-some k r x g q) ∙ a x mem-cons_self in
              rw (q, check_from, yes)
                (ap (check_from k (es ++ e ∷ behind)) (w x mem-cons_self g r q))
