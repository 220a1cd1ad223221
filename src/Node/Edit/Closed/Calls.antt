-- ===== src/Node/Edit/Closed/Calls.antt =====
-- node/edit.go: what one definition does keeps what the calls in it keep.
use c2g.Common.{
  ℕ, ◌+◌, List, Bytes, bytes_eq, Bool, true, false, Option, none, some, Result, ok, err,
  if◌then◌else◌, inl, inr,
}
use c2g.Meta.Defs.{Def, Cases}
use c2g.Node.Choices.{case_defs}
use c2g.Node.Edit.{
  Strategy, upsert, insert, update, other, selection, conflict, not_found, no_container, no_item,
  not_implemented, ◌>>=◌, ◌>>◌, return, fail, Rows, done, failed, row, Selections, Home, lift,
  has_any,
}
use c2g.Node.Edit.Editor.{
  Run, clear_choice_case, clear_chosen, clear_on_different, clears, edit_leaf, place_child,
  edit_node, place_item, edit_rows,
}
use c2g.Node.Edit.Closed.{Scope, Fits, fits-cases, Predicate, Creating, Closed}

module _ (S : Selections) {scope : Scope} {C : Predicate S} (h : Closed S scope C) where
  lift-C : {A : Type 0} (r : Result S.Error A) → C A (lift r)
  lift-C (ok x) = h.pure x
  lift-C (err e) = h.raise (selection e) tt

  clear_chosen-C :
      Creating S C
      → (t : S.To) (cs : Cases) (want : Bytes) (o : Option (Option Bytes))
      → C (Unit {0}) (clear_chosen S t cs want o)
  unfolding clear_chosen
  clear_chosen-C k t cs want none = h.pure tt
  clear_chosen-C k t cs want (some none) = h.pure tt
  clear_chosen-C k t cs want (some (some x)) = on (bytes_eq x want)
    where
      on :
          (b : Bool)
          → C (Unit {0}) (if b then return tt else clear_choice_case S t (case_defs x cs))
      on true = h.pure tt
      on false = k.clear_case t (case_defs x cs)

  clear_on_different-C :
      Creating S C → (t : S.To) (home : Home) → C (Unit {0}) (clear_on_different S t home)
  unfolding clear_on_different
  clear_on_different-C k t none = h.pure tt
  clear_on_different-C k t (some ((x, cs), want)) =
      h.looks _ (λ w. clear_chosen-C k t cs want (S.choose_to t w x cs))

  clears-C :
      (s : Strategy) (P : Type 0)
      → Fits scope s P
      → (t : S.To) (home : Home) → C (Unit {0}) (clears S s t home)
  unfolding clears
  clears-C upsert P f t home = elim (fits-cases scope upsert P f) [
    | inl e ↦ clear_on_different-C (h.creating e) t home
    | inr (e, p) ↦ cc
  ]
  clears-C insert P f t home = h.pure tt
  clears-C update P f t home = h.pure tt
  clears-C other P f t home = h.pure tt

  pub edit_leaf-C :
      (u : Bool) (s : Strategy) (new : Bool) (home : Home) (x : Bytes) (from : S.From) (to : S.To)
      (P : Type 0)
      → Fits scope s P
      → C (Unit {0}) (edit_leaf S u s new home x from to)
  unfolding edit_leaf
  edit_leaf-C u s new home x from to P f = h.chain _ _ (lift-C _) on
    where
      on :
          (v : Option S.Value)
          → C
              (Unit {0})
              (elim v [ none ↦ return tt | some y ↦ clears S s to home >> S.set_value to x y ])
      on none = h.pure tt
      on (some y) = h.chain _ _ (clears-C s P f to home) (λ _. h.set to x y)

  created-C :
      Creating S C
      → (t : S.To) (m : Def)
      → C (Option S.To × Bool) (S.to_child t m true >>= λ o. return (o, true))
  created-C k t m = h.chain _ _ (k.create t m) (λ o. h.pure (o, true))

  place_child-C :
      (s : Strategy) (P : Type 0)
      → Fits scope s P
      → (home : Home) (m : Def) (t : S.To) (o : Option S.To)
      → C (Option S.To × Bool) (place_child S s home m t o)
  unfolding place_child
  place_child-C insert P f home m t (some c) = h.raise conflict tt
  place_child-C insert P f home m t none = elim (fits-cases scope insert P f) [
    | inl e ↦ created-C (h.creating e) t m
    | inr (e, p) ↦ cc
  ]
  place_child-C upsert P f home m t o = elim (fits-cases scope upsert P f) [
    | inl e ↦ upserted (h.creating e) o
    | inr (e, p) ↦ cc
  ]
    where
      upserted :
          Creating S C
          → (o : Option S.To) → C (Option S.To × Bool) (place_child S upsert home m t o)
      upserted k (some c) =
          h.chain _ _ (clear_on_different-C k t home) (λ _. h.pure (some c, false))
      upserted k none = h.chain _ _ (clear_on_different-C k t home) (λ _. created-C k t m)
  place_child-C update P f home m t (some c) = h.pure (some c, false)
  place_child-C update P f home m t none = h.raise not_found tt
  place_child-C other P f home m t o = h.raise not_implemented tt

  -- A way to go on with a child that fits a strategy.
  abbrev pub Goes : Strategy → (Strategy → Bool → S.From → S.To → Run S) → Type 0
  Goes s go = (new : Bool) (from : S.From) (to : S.To) → C (Unit {0}) (go s new from to)

  pub edit_node-C :
      (go : Strategy → Bool → S.From → S.To → Run S) (s : Strategy) (P : Type 0)
      → Fits scope s P
      → Goes s go
      → (home : Home) (m : Def) (from : S.From) (to : S.To)
      → C (Unit {0}) (edit_node S go s home m from to)
  unfolding edit_node
  edit_node-C go s P f g home m from to = h.chain _ _ (lift-C (S.from_child from m)) on
    where
      enters :
          (c : S.From) (tn : Option S.To × Bool)
          → C (Unit {0}) (elim tn.0 [ none ↦ fail no_container | some t ↦ go s tn.1 c t ])
      enters c (none, b) = h.raise no_container tt
      enters c (some t, b) = g b c t

      on :
          (o : Option S.From)
          → C (Unit {0}) (elim o [
            | none ↦ return tt
            | some c ↦ S.to_child to m false >>= place_child S s home m to >>= λ tn. elim tn.0 [
              | none ↦ fail no_container
              | some t ↦ go s tn.1 c t
            ]
          ])
      on none = h.pure tt
      on (some c) =
          h.chain _ _ (h.chain _ _ (h.child to m) (place_child-C s P f home m to)) (enters c)

  place_item-C :
      Creating S C
      → (s : Strategy) (key : List S.Key) (r : ℕ) (to : S.To) (o : Option S.To)
      → C (Option S.To × Bool) (place_item S s key r to o)
  unfolding place_item
  place_item-C k update key r to (some t) = h.pure (some t, false)
  place_item-C k update key r to none = h.raise not_found tt
  place_item-C k upsert key r to (some t) = h.pure (some t, false)
  place_item-C k upsert key r to none = h.chain _ _ (k.item to key r true) (λ o. h.pure (o, true))
  place_item-C k insert key r to (some t) = h.raise conflict tt
  place_item-C k insert key r to none = h.chain _ _ (k.item to key r true) (λ o. h.pure (o, true))
  place_item-C k other key r to o = h.raise not_implemented tt

  looked-C :
      Creating S C
      → (b : Bool) (key : List S.Key) (r : ℕ) (to : S.To)
      → C (Option S.To) (if b then S.to_item to key r false else return none)
  looked-C k true key r to = k.item to key r false
  looked-C k false key r to = h.pure none

  pub edit_rows-C :
      Creating S C
      → (go : Strategy → Bool → S.From → S.To → Run S) → Goes upsert go
      → (s : Strategy) (r : ℕ) (rows : Rows S.From S.Key S.Error) (to : S.To)
      → C (Unit {0}) (edit_rows S go s r rows to)
  unfolding edit_rows
  edit_rows-C k go g s r done to = h.pure tt
  edit_rows-C k go g s r (failed e) to = h.raise (selection e) tt
  edit_rows-C k go g s r (row from key rest) to =
      h.chain _ _
        (h.chain _ _ (h.chain _ _ (looked-C k (has_any key) key r to) (place_item-C k s key r to))
          enters)
        (λ _. edit_rows-C k go g s (r + 1) rest to)
    where
      enters :
          (tn : Option S.To × Bool)
          → C (Unit {0}) (elim tn.0 [ none ↦ fail no_item | some t ↦ go upsert tn.1 from t ])
      enters (none, b) = h.raise no_item tt
      enters (some t, b) = g b from t
