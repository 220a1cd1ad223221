-- ===== src/Node/Constraints/Order.antt =====
-- node/constraints.go: the order that `compile` puts the constraints in.
use c2g.Common.{◌≡◌, false, List, [], ◌∷◌, none, map, arith, Bytes}
use mathlib.Core.Path.{ap₂}
use mathlib.Core.List.{Mem, Perm, Pairwise, mem-cons_self, mem-cons_of_mem, forall_mem-cons}
use mathlib.Core.List.Pairwise
use mathlib.Core.List.Perm
use c2g.Node.Constraints.{Types, Entry, Constraints, GoLib, less, compile}

module _ {T : Types} where
  -- `a` may stand in front of `b`.
  abbrev pub IsBefore : Entry T → Entry T → Type 0
  IsBefore a b = less b a ≡ false

  abbrev pub IsOrdered : List (Entry T) → Type 0
  IsOrdered = Pairwise IsBefore

  abbrev pub values : Constraints T → List (Entry T)
  values self = map (λ ke. ke.1) self.entries

  -- What Go promises: a loop over a map meets every entry once, and `sort.Sort` returns the same
  -- elements, none in front of a lesser one.
  pub record IsGoLib (lib : GoLib T) : Type 0 where
    pub iterate-perm : (es : List (Bytes × Entry T)) → Perm (lib.iterate es) es
    pub sort-perm : (es : List (Entry T)) → Perm (lib.sort less es) es
    pub sort-IsOrdered : (es : List (Entry T)) → IsOrdered (lib.sort less es)

  pub IsBefore-trans : (a b c : Entry T) → IsBefore a b → IsBefore b c → IsBefore a c
  IsBefore-trans a b c h k =
      let pa = a.priority in
      let pb = b.priority in
      let pc = c.priority in
      let wa = a.weight in let wb = b.weight in let wc = c.weight in ground arith

  IsBefore-antisymm :
      (a b : Entry T)
      → IsBefore a b
      → IsBefore b a
      → (a.priority ≡ b.priority) × (a.weight ≡ b.weight)
  IsBefore-antisymm a b h k =
      let pa = a.priority in
      let pb = b.priority in let wa = a.weight in let wb = b.weight in (ground arith, ground arith)

  -- Constraints of one priority and one weight are the same.
  abbrev pub IsDistinct : List (Entry T) → Type 0
  IsDistinct es =
      (a b : Entry T) → Mem a es → Mem b es → a.priority ≡ b.priority → a.weight ≡ b.weight → a ≡ b

  IsBefore-refl : (a : Entry T) → IsBefore a a
  IsBefore-refl a = let p = a.priority in let w = a.weight in ground arith

  pub IsBefore-head :
      {a : Entry T} {l : List (Entry T)}
      → IsOrdered (a ∷ l)
      → (x : Entry T) → Mem x (a ∷ l)
      → IsBefore a x
  IsBefore-head {a} (Pairwise.cons h _) = (forall_mem-cons (λ x. hlevel)).1 (IsBefore-refl a, h)

  IsOrdered-unique :
      {l r : List (Entry T)} → IsOrdered l → IsOrdered r → Perm l r → IsDistinct l → l ≡ r
  IsOrdered-unique {l = []} _ _ p d = Perm.nil-eq p
  IsOrdered-unique {l = a ∷ l} {r = []} _ _ p d = Perm.eq-nil p
  IsOrdered-unique {l = a ∷ l} {r = b ∷ r} sl sr p d =
      let in_l = (Perm.mem_iff p).1 mem-cons_self in
      let (same_priority, same_weight) =
        IsBefore-antisymm a b (IsBefore-head sl b in_l)
          (IsBefore-head sr a ((Perm.mem_iff p).0 mem-cons_self)) in
      let heads = d a b mem-cons_self in_l same_priority same_weight in
      let tails = Perm.cons_inv (Perm.trans p (Perm.symm (Perm.cons' heads Perm.rfl))) in
      ap₂ ◌∷◌ heads (
        IsOrdered-unique {l = l} (Pairwise.of_cons sl) (Pairwise.of_cons sr) tails
          (λ x y m n. d x y (mem-cons_of_mem a m) (mem-cons_of_mem a n)))

  pub compile-perm :
      (lib : GoLib T)
      → IsGoLib lib
      → (self : Constraints T) → self.compiled ≡ none
      → Perm (compile lib self).0 (values self)
  unfolding compile
  compile-perm lib go self h =
      rw h (Perm.trans (go.sort-perm _) (Perm.map (λ ke. ke.1) (go.iterate-perm self.entries)))

  pub compile-IsOrdered :
      (lib : GoLib T)
      → IsGoLib lib
      → (self : Constraints T) → self.compiled ≡ none
      → IsOrdered (compile lib self).0
  unfolding compile
  compile-IsOrdered lib go self h = rw h (go.sort-IsOrdered _)

  -- Whatever order Go's loops over maps have, constraints of different priorities or weights are
  -- compiled to the same list.
  pub compile_unique :
      (lib lib' : GoLib T) (self : Constraints T)
      → IsGoLib lib
      → IsGoLib lib'
      → self.compiled ≡ none
      → IsDistinct (values self)
      → (compile lib self).0 ≡ (compile lib' self).0
  compile_unique lib lib' self go go' h d =
      let p = compile-perm lib go self h in
      IsOrdered-unique (compile-IsOrdered lib go self h) (compile-IsOrdered lib' go' self h)
        (Perm.trans p (Perm.symm (compile-perm lib' go' self h)))
        (λ a b m n. d a b ((Perm.mem_iff p).0 m) ((Perm.mem_iff p).0 n))
