-- ===== src/Node/Edit/Update.antt =====
-- node/edit.go: what updates keep.
use c2g.Common.{refl, Bytes, Bool, false, Result, ok, err}
use c2g.Meta.Defs.{Def, Defs}
use c2g.Node.Edit.{update, EditError, Call, feed, ◌>>=◌, ◌>>◌, Selections}
use c2g.Node.Edit.Editor.{framed, edit}
use c2g.Node.Edit.Closed.{HasNoList, updates_only, Closed}
use c2g.Node.Edit.Closed.Whole.{edit-C}

-- A call keeps a property of the state of the destination, also where it fails.
abbrev pub Keeps : {W E A : Type 0} → (W → Type 0) → Call W E A → Type 0
Keeps {W} I c = (w : W) → I w → I (c w).1

Keeps->>= :
    {W E A B : Type 0} (I : W → Type 0) (c : Call W E A) (f : A → Call W E B)
    → Keeps I c
    → ((x : A) → Keeps I (f x))
    → Keeps I (c >>= f)
Keeps->>= {W} {E} {A} {B} I c f k g w i = fed (c w) (k w i)
  where
    fed : (r : Result (EditError E) A × W) → I r.1 → I (feed r f).1
    fed (ok x, w') i' = g x w' i'
    fed (err e, w') i' = i'

module _ (S : Selections) where
  -- The calls that an update makes keep a property of the state of the destination.
  pub record UpdatesKeep (I : S.World → Type 0) : Type 0 where
    pub set : (t : S.To) (x : Bytes) (v : S.Value) → Keeps I (S.set_value t x v)
    pub child : (t : S.To) (m : Def) → Keeps I (S.to_child t m false)
    pub begins : (t : S.To) (new root bubble : Bool) → Keeps I (S.begin_edit t new root bubble)
    pub ends : (t : S.To) (new root bubble : Bool) → Keeps I (S.end_edit t new root bubble)

  updates-Closed : (I : S.World → Type 0) → UpdatesKeep I → Closed S updates_only (λ A c. Keeps I c)
  unfolding framed
  updates-Closed I k = record {
    pure = λ x w i. i;
    raise = λ e n w i. i;
    chain = Keeps->>= I;
    looks = λ g h w i. h w w i;
    frame = λ new root bubble t body h.
        let b = S.begin_edit t new root bubble in
        Keeps->>= I (b >> body) (λ _. S.end_edit t new root bubble)
          (Keeps->>= I b (λ _. body) (k.begins t new root bubble) (λ _. h))
          (λ _. k.ends t new root bubble);
    set = k.set;
    child = k.child;
    creating = λ e. cc;
  }

  -- An update creates and clears nothing where no list is defined: whatever holds of the destination
  -- and is kept by setting a leaf, by looking for a child without creating it and by the callbacks at
  -- the begin and the end of an edit, holds behind the update, also behind one that fails.
  pub edit-update_keeps :
      (I : S.World → Type 0) (u : Bool) (ds : Defs) (from : S.From) (to : S.To)
      → HasNoList ds
      → UpdatesKeep I
      → Keeps I (edit S u update ds from to)
  edit-update_keeps I u ds from to n k = edit-C S (updates-Closed I k) u update ds from to (refl, n)
