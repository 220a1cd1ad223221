-- ===== src/Node/Edit/Closed.antt =====
-- node/edit.go: predicates of calls that hold of an edit because they hold of every call that the
-- editor makes.
pub mod Clear
pub mod Calls
pub mod Whole
use c2g.Common.{
  ℕ, zero, suc, ◌+◌, ◌≡◌, refl, List, [], ◌∷◌, Bytes, bytes_eq, Bool, true, false, Option, none,
  some, Result, ok, err, if◌then◌else◌, ◌⊎◌, inl, inr, sym, arith,
}
use c2g.Meta.Defs.{
  Def, Defs, Cases, leaf, container, list, choice, nil, more, case_of, no_cases, one_of, ident_of,
}
use c2g.Node.Choices.{Iter, case_defs, new_iter, next_meta}
use c2g.Node.Edit.{
  Strategy, upsert, insert, update, other, EditError, selection, conflict, not_found, no_container,
  no_item, not_implemented, panicked, out_of_fuel, Call, feed, ◌>>=◌, ◌>>◌, return, fail, Rows,
  done, failed, row, Selections, Home, lift, run_iter, reading, has_any,
}
use c2g.Node.Edit.Editor.{
  use_default, Run, clear_def, clear_from, clear_choice_case, clear_chosen, clear_on_different,
  clears, edit_leaf, place_child, edit_node, place_item, edit_rows, framed, edit_defs, edit_def,
  edit_case, edit, edit_list,
}

-- No list, at any depth.
unfoldable mutual
  pub HasNoList : Defs → Type 0
  HasNoList nil = Unit {0}
  HasNoList (more d ds) = HasNoListDef d × HasNoList ds

  pub HasNoListDef : Def → Type 0
  HasNoListDef (leaf x) = Unit {0}
  HasNoListDef (container x ds) = HasNoList ds
  HasNoListDef (list x ds) = ⊥
  HasNoListDef (choice x cs) = HasNoListCases cs

  pub HasNoListCases : Cases → Type 0
  HasNoListCases no_cases = Unit {0}
  HasNoListCases (one_of (case_of x ds) cs) = HasNoList ds × HasNoListCases cs

-- What an edit is allowed to do: everything, or no more than updates outside lists do.
pub data Scope : Type 0 where
  any updates_only : Scope

-- The scope fits a strategy, and `P`, which says that there is no list.
abbrev pub Fits : Scope → Strategy → Type 0 → Type 0
Fits any s P = Unit {0}
Fits updates_only s P = (s ≡ update) × P

-- Any error but the end of the fuel.
abbrev pub HasFuel : {E : Type 0} → EditError E → Type 0
HasFuel out_of_fuel = ⊥
HasFuel _ = Unit {0}

pub fits-cases :
    (scope : Scope) (s : Strategy) (P : Type 0)
    → Fits scope s P
    → (scope ≡ any) ⊎ ((s ≡ update) × P)
fits-cases any s P f = inl refl
fits-cases updates_only s P f = inr f

pub fits_any : (scope : Scope) (s : Strategy) (P : Type 0) → scope ≡ any → Fits scope s P
fits_any any s P e = tt
fits_any updates_only s P e = cc

pub fits-map :
    (scope : Scope) (s : Strategy) {P Q : Type 0} → (P → Q) → Fits scope s P → Fits scope s Q
fits-map any s g f = tt
fits-map updates_only s g (e, p) = (e, g p)

module _ (S : Selections) where
  abbrev pub Predicate : Type 1
  Predicate = (A : Type 0) → Call S.World S.Error A → Type 0

  -- The calls that no update makes.
  pub record Creating (C : Predicate) : Type 0 where
    pub clear_case : (t : S.To) (ds : Defs) → C (Unit {0}) (clear_choice_case S t ds)
    pub create : (t : S.To) (m : Def) → C (Option S.To) (S.to_child t m true)
    pub item : (t : S.To) (k : List S.Key) (r : ℕ) (b : Bool) → C (Option S.To) (S.to_item t k r b)

  -- A predicate of calls that the editor's own code keeps.
  pub record Closed (scope : Scope) (C : Predicate) : Type 1 where
    pub pure : {A : Type 0} (x : A) → C A (return x)
    pub raise : {A : Type 0} (e : EditError S.Error) → HasFuel e → C A (fail e)
    pub chain :
        {A B : Type 0} (c : Call S.World S.Error A) (f : A → Call S.World S.Error B)
        → C A c
        → ((x : A) → C B (f x))
        → C B (c >>= f)
    pub looks :
        {A : Type 0} (g : S.World → Call S.World S.Error A)
        → ((w : S.World) → C A (g w))
        → C A (reading g)
    pub frame :
        (new root bubble : Bool) (t : S.To) (body : Run S)
        → C (Unit {0}) body
        → C (Unit {0}) (framed S new root bubble t body)
    pub set : (t : S.To) (x : Bytes) (v : S.Value) → C (Unit {0}) (S.set_value t x v)
    pub child : (t : S.To) (m : Def) → C (Option S.To) (S.to_child t m false)
    pub creating : scope ≡ any → Creating C
