-- ===== src/Node/Edit/Nested.antt =====
-- node/edit.go: the order of the begins and ends of edits.
use c2g.Common.{ℕ, ◌≡◌, refl, ◌∙◌, List, ◌∷◌, Bytes, Bool, true, false, Result, ok, err}
use c2g.Meta.Defs.{Def, Defs}
use c2g.Node.Edit.{Strategy, EditError, Call, feed, ◌>>=◌, ◌>>◌, sought, Selections}
use c2g.Node.Edit.Editor.{framed, edit, edit_list}
use c2g.Node.Edit.Closed.{Scope, any, updates_only, Creating, Closed}
use c2g.Node.Edit.Closed.Clear.{Clearing, clear_choice_case-C}
use c2g.Node.Edit.Closed.Whole.{edit-C, edit_list-C}

-- Where a call succeeds, a value computed from the state is what it was.
abbrev pub Restores : {W E A V : Type 0} → (W → V) → Call W E A → Type 0
Restores {W} {E} {A} v c = (w : W) (x : A) → (c w).0 ≡ ok x → v (c w).1 ≡ v w

Restores->>= :
    {W E A B V : Type 0} (v : W → V) (c : Call W E A) (f : A → Call W E B)
    → Restores v c
    → ((x : A) → Restores v (f x))
    → Restores v (c >>= f)
Restores->>= {W} {E} {A} {B} v c f k g w y e = fed (c w) (k w) y e
  where
    fed :
        (r : Result (EditError E) A × W)
        → ((x : A) → r.0 ≡ ok x → v r.1 ≡ v w)
        → (y : B) → (feed r f).0 ≡ ok y
        → v (feed r f).1 ≡ v w
    fed (ok x, w') k' y e = g x w' y e ∙ k' x refl
    fed (err x, w') k' y e = cc

-- What begins an edit, does something that leaves the edits begun as they are, and ends it again.
Restores-nested :
    {W E T : Type 0} (v : W → List T) (t : T) (b body e : Call W E (Unit {0}))
    → ((w : W) → (b w).0 ≡ ok tt → v (b w).1 ≡ t ∷ v w)
    → Restores v body
    → ((w : W) (rest : List T) → v w ≡ t ∷ rest → (e w).0 ≡ ok tt → v (e w).1 ≡ rest)
    → Restores v (b >> body >> e)
Restores-nested {W} {E} {T} v t b body e hb hbody he w y q = opened (b w) (hb w) y q
  where
    closed :
        (r : Result (EditError E) (Unit {0}) × W)
        → (r.0 ≡ ok tt → v r.1 ≡ t ∷ v w)
        → (y : Unit {0}) → (feed r (λ _. e)).0 ≡ ok y
        → v (feed r (λ _. e)).1 ≡ v w
    closed (ok u, w') h y q = he w' (v w) (h refl) q
    closed (err x, w') h y q = cc

    opened :
        (r : Result (EditError E) (Unit {0}) × W)
        → (r.0 ≡ ok tt → v r.1 ≡ t ∷ v w)
        → (y : Unit {0}) → (feed (feed r (λ _. body)) (λ _. e)).0 ≡ ok y
        → v (feed (feed r (λ _. body)) (λ _. e)).1 ≡ v w
    opened (ok u, w') h y q = closed (body w') (λ p. hbody w' tt p ∙ h refl) y q
    opened (err x, w') h y q = cc

module _ (S : Selections) where
  -- The calls that the editor makes leave the edits that are begun and not ended as they are, but for
  -- those that begin and end one.
  pub record Nests (begun : S.World → List S.To) : Type 0 where
    pub set : (t : S.To) (x : Bytes) (v : S.Value) → Restores begun (S.set_value t x v)
    pub child : (t : S.To) (m : Def) (b : Bool) → Restores begun (S.to_child t m b)
    pub item : (t : S.To) (k : List S.Key) (r : ℕ) (b : Bool) → Restores begun (S.to_item t k r b)
    pub clear : (t : S.To) (x : Bytes) → Restores begun (S.clear_field t x)
    pub find : (t : S.To) (x : Bytes) → Restores begun (sought (S.find t x))
    pub delete : (t : S.To) → Restores begun (S.delete t)
    pub begins :
        (t : S.To) (new root bubble : Bool) (w : S.World)
        → (S.begin_edit t new root bubble w).0 ≡ ok tt
        → begun (S.begin_edit t new root bubble w).1 ≡ t ∷ begun w
    pub ends :
        (t : S.To) (new root bubble : Bool) (w : S.World) (rest : List S.To)
        → begun w ≡ t ∷ rest
        → (S.end_edit t new root bubble w).0 ≡ ok tt
        → begun (S.end_edit t new root bubble w).1 ≡ rest

  restores-Clearing :
      (begun : S.World → List S.To) → Nests begun → Clearing S (λ A c. Restores begun c)
  restores-Clearing begun n = record {
    no_fuel = λ w x e. cc;
    clear = n.clear;
    find = n.find;
    delete = n.delete;
  }

  restores-Closed :
      (begun : S.World → List S.To)
      → Nests begun
      → (scope : Scope) → (scope ≡ any → Creating S (λ A c. Restores begun c))
      → Closed S scope (λ A c. Restores begun c)
  unfolding framed
  restores-Closed begun n scope creating = record {
    pure = λ x w y e. refl;
    raise = λ x h w y e. cc;
    chain = Restores->>= begun;
    looks = λ g h w. h w w;
    frame = λ new root bubble t body h.
        Restores-nested begun t (S.begin_edit t new root bubble) body (S.end_edit t new root bubble)
          (n.begins t new root bubble) h (n.ends t new root bubble);
    set = n.set;
    child = λ t m. n.child t m false;
    creating = creating;
  }

  restores_all-Closed :
      (begun : S.World → List S.To) → Nests begun → Closed S any (λ A c. Restores begun c)
  restores_all-Closed begun n =
      let base = restores-Closed begun n updates_only (λ e. cc) in
      restores-Closed begun n any (λ e. record {
        clear_case = clear_choice_case-C S base (restores-Clearing begun n);
        create = λ t m. n.child t m true;
        item = n.item;
      })

  -- In every edit that succeeds, whatever the strategy, the begins and ends of edits are nested like
  -- brackets: each selection that is begun is ended, the last begun first, and the edits begun before
  -- are those begun behind it. It holds of the edit of a container and of that of a list.
  pub edit-nested :
      (begun : S.World → List S.To) (u : Bool) (s : Strategy) (ds : Defs) (from : S.From)
      (to : S.To)
      → Nests begun
      → Restores begun (edit S u s ds from to) × Restores begun (edit_list S u s ds from to)
  edit-nested begun u s ds from to n =
      let c = restores_all-Closed begun n in
      (edit-C S c u s ds from to tt, edit_list-C S c refl u s ds from to)
