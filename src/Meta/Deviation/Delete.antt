-- ===== src/Meta/Deviation/Delete.antt =====
-- meta/resolver.go: what a deviation deletes.
use c2g.Common.{
  ℕ, ◌≡◌, refl, sym, ap, ◌∙◌, List, [], ◌∷◌, Bytes, bytes_eq_iff, bytes_eq_refl, Bool, true, false,
  Option, none, some, Result, ok, err, ◌>>=◌, arith, Bool-cases, inl, inr, ◌↔◌,
}
use mathlib.Core.List.{Perm}
use mathlib.Core.List as List
use mathlib.Core.List.Perm
use c2g.Meta.Deviation.Steps.{View, view, given, field}
use c2g.Meta.Deviation.Add.{apply_add-adds}
use c2g.Meta.Deviation.{
  LeafDetails, Target, cannot_delete, DeleteDeviate, Sort, Property, same_length, text, AddDeviate,
  apply_add, delete_musts, delete_unique, arrays_eq, is_array_string_equal, other_uniques,
  delete_units, delete_default, apply_delete,
}

-- What Go promises of sort.Strings: a list with the same elements, which does not depend on their
-- order before.
pub record IsSort (sort : Sort) : Type 0 where
  pub permutes : (l : List Bytes) → Perm (sort l) l
  pub canonical : (k l : List Bytes) → Perm k l → sort k ≡ sort l

arrays_eq_iff : (k l : List Bytes) → (arrays_eq k l ≡ true) ↔ (k ≡ l)
arrays_eq_iff [] [] = ground arith
arrays_eq_iff [] (y ∷ l) = ground arith
arrays_eq_iff (x ∷ k) [] = ground arith
arrays_eq_iff (x ∷ k) (y ∷ l) = ground (arith, bytes_eq_iff x y, arrays_eq_iff k l)

same_length-eq : (k l : List Bytes) → List.length k ≡ List.length l → same_length k l ≡ true
same_length-eq [] [] e = refl
same_length-eq [] (y ∷ l) e = cc
same_length-eq (x ∷ k) [] e = cc
same_length-eq (x ∷ k) (y ∷ l) e = same_length-eq k l (cc)

-- The candidates that remain: those with other elements than the unique, each with its own elements.
pub data Drops (u : List Bytes) : List (List Bytes) → Bool → List (List Bytes) → Type 0 where
  empty : Drops u [] false []
  gone :
      {c : List Bytes} {cs rest : List (List Bytes)} {found : Bool}
      → Perm c u
      → Drops u cs found rest
      → Drops u (c ∷ cs) true rest
  kept :
      {c c' : List Bytes} {cs rest : List (List Bytes)} {found : Bool}
      → (Perm c u → ⊥)
      → Perm c' c
      → Drops u cs found rest
      → Drops u (c ∷ cs) found (c' ∷ rest)

equal_of_Perm :
    (sort : Sort)
    → IsSort sort
    → (u c : List Bytes) → Perm c u
    → is_array_string_equal sort u c ≡ (true, (sort u, sort c))
unfolding is_array_string_equal
equal_of_Perm sort h u c p =
    rw (same_length-eq u c (sym (Perm.length-eq p)))
      (rw ((arrays_eq_iff (sort u) (sort c)).1 (h.canonical u c (Perm.symm p))) refl)

-- The two slices keep their elements, and the result says whether they are the same.
record Compared (sort : Sort) (u c : List Bytes) (r : Bool × (List Bytes × List Bytes))
    : Type 0 where
  same_elements : (r.0 ≡ true) → Perm c u
  left : Perm r.1.0 u
  right : Perm r.1.1 c

compared :
    (sort : Sort)
    → IsSort sort
    → (u c : List Bytes) → Compared sort u c (is_array_string_equal sort u c)
unfolding is_array_string_equal
compared sort h u c = elim (Bool-cases (same_length u c)) [
  | inr e ↦ rw e (record { same_elements = λ q. cc; left = Perm.rfl; right = Perm.rfl })
  | inl e ↦ rw e (record {
    same_elements = λ q.
        let k = (arrays_eq_iff (sort u) (sort c)).0 q in
        Perm.trans (Perm.symm (h.permutes c)) (rw (sym k) (h.permutes u));
    left = h.permutes u;
    right = h.permutes c;
  })
]

abbrev DropsAll : Sort → List Bytes → List Bytes → List (List Bytes) → Type 0
DropsAll sort u v cs = Drops u cs (other_uniques sort v cs).0 (other_uniques sort v cs).1

other_uniques-cons :
    (sort : Sort) (u v c : List Bytes) (cs : List (List Bytes))
    (r : Bool × (List Bytes × List Bytes))
    → IsSort sort
    → Perm v u
    → is_array_string_equal sort v c ≡ r
    → Compared sort v c r
    → ((w : List Bytes) → Perm w u → DropsAll sort u w cs)
    → DropsAll sort u v (c ∷ cs)
unfolding other_uniques
other_uniques-cons sort u v c cs (true, (v', c')) h p q x ih =
    rw (q, other_uniques) (gone (Perm.trans (x.same_elements refl) p) (ih v' (Perm.trans x.left p)))
other_uniques-cons sort u v c cs (false, (v', c')) h p q x ih =
    rw (q, other_uniques)
      (kept (λ y. let e = sym q ∙ equal_of_Perm sort h v c (Perm.trans y (Perm.symm p)) in cc)
        x.right (ih v' (Perm.trans x.left p)))

drops_along :
    (sort : Sort) (u v : List Bytes) (cs : List (List Bytes))
    → IsSort sort
    → Perm v u
    → DropsAll sort u v cs
unfolding other_uniques
drops_along sort u v [] h p = empty
drops_along sort u v (c ∷ cs) h p =
    other_uniques-cons sort u v c cs _ h p refl (compared sort h v c)
      (λ w. drops_along sort u w cs h)

-- For each unique of a deletion: the candidates with the same elements are dropped, whatever their
-- order, and the others stay in order, each with its own elements (in an order that may be another);
-- the unique counts as found where a candidate is dropped.
pub other_uniques-Drops :
    (sort : Sort) (u : List Bytes) (cs : List (List Bytes))
    → IsSort sort
    → Drops u cs (other_uniques sort u cs).0 (other_uniques sort u cs).1
other_uniques-Drops sort u cs h = drops_along sort u u cs h Perm.rfl

bind_err :
    {E A B : Type 0} (m : Result E A) (f : A → Result E B) {e : E} → m ≡ err e → (m >>= f) ≡ err e
bind_err (ok x) f q = cc
bind_err (err x) f q = ground (arith, q)

text_inv : (x : Bytes) (c : ℕ) (s : Bytes) → text x ≡ some (c ∷ s) → x ≡ c ∷ s
text_inv [] c s e = cc
text_inv (d ∷ x) c s e = ground (arith, e)

delete_units_set :
    (t : Target) (c : ℕ) (s : Bytes)
    → (view t).units ≡ some (c ∷ s)
    → delete_units (c ∷ s) t ≡ err (cannot_delete Property.units)
unfolding delete_units
delete_units_set t c s e = on t.leaf_details refl e
  where
    on :
        (o : Option LeafDetails)
        → t.leaf_details ≡ o
        → field o none (λ d. text d.units) ≡ some (c ∷ s)
        → delete_units (c ∷ s) t ≡ err (cannot_delete Property.units)
    on none q e = cc
    on (some l) q e =
        rw (q, delete_units) (rw (text_inv l.units c s e) (rw (bytes_eq_refl (c ∷ s)) refl))

-- Where an addition that succeeds has set units, a deletion that names these same units is refused,
-- whatever else it deletes.
pub apply_add-then_delete :
    (sort : Sort) (d : AddDeviate) (e : DeleteDeviate) (t t' : Target) (c : ℕ) (s : Bytes)
    → apply_add d t ≡ ok t'
    → d.units ≡ c ∷ s
    → e.units ≡ c ∷ s
    → apply_delete sort e t' ≡ err (cannot_delete Property.units)
unfolding apply_delete
apply_add-then_delete sort d e t t' c s a p q =
    let v : (view t').units ≡ given (text d.units) (view t).units =
      ap (λ (v : View). v.units) (apply_add-adds d t t' a).1 in
    let w : (view t').units ≡ some (c ∷ s) = v ∙ rw p refl in
    let r : delete_units e.units t' ≡ err (cannot_delete Property.units) =
      rw q (delete_units_set t' c s w) in
    bind_err _ (delete_musts e.musts)
      (bind_err _ (delete_unique sort e.unique) (bind_err _ (delete_default e.default_val) r))
