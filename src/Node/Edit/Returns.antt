-- ===== src/Node/Edit/Returns.antt =====
-- node/edit.go: edits end.
use c2g.Common.{
  ℕ, zero, suc, ◌+◌, ◌≤◌, ◌<◌, ◌≡◌, ◌≢◌, refl, ap, List, Bytes, Bool, true, false, Option, none,
  some, Result, ok, err, arith,
}
use c2g.Common.{◌>>=◌ as and_then}
use c2g.Meta.Defs.{Def, Defs, leaf, container, list, choice}
use c2g.Node.Choices.{Iter, Stop, panics, next_of, look_ahead, next_meta, new_iter, plain}
use c2g.Node.Choices.Flatten.{cost}
use c2g.Node.Choices.Ends.{weight, one, IsTidy, sub_tidy, Ends, look_ahead-Ends}
use c2g.Node.Edit.{
  run_iter, Strategy, EditError, selection, conflict, not_found, no_container, no_item,
  not_implemented, panicked, out_of_fuel, Call, feed, ◌>>=◌, ◌>>◌, return, fail, quiet, sought,
  Selections,
}
use c2g.Node.Edit.Editor.{Run, framed, clear_def, clear_from, clear_choice_case, edit, edit_list}
use c2g.Node.Edit.Closed.{Scope, any, HasFuel, Creating, Closed}
use c2g.Node.Edit.Closed.Whole.{edit-C, edit_list-C}

-- A call does not stop for want of fuel.
abbrev pub HasFuelCall : {W E A : Type 0} → Call W E A → Type 0
HasFuelCall {W} c = (w : W) → (c w).0 ≢ err out_of_fuel

HasFuel->>= :
    {W E A B : Type 0} (c : Call W E A) (f : A → Call W E B)
    → HasFuelCall c
    → ((x : A) → HasFuelCall (f x))
    → HasFuelCall (c >>= f)
HasFuel->>= {W} {E} {A} {B} c f k g w = fed (c w) (k w)
  where
    fed : (r : Result (EditError E) A × W) → r.0 ≢ err out_of_fuel → (feed r f).0 ≢ err out_of_fuel
    fed (ok x, w') k' = g x w'
    fed (err x, w') k' = λ e. k' (cc)

coded :
    {W E A : Type 0} (e : EditError E) → HasFuel e → HasFuelCall {W = W} {E = E} {A = A} (fail e)
coded out_of_fuel h = absurd h
coded conflict h = λ w e. cc
coded not_found h = λ w e. cc
coded no_container h = λ w e. cc
coded no_item h = λ w e. cc
coded not_implemented h = λ w e. cc
coded panicked h = λ w e. cc
coded (selection x) h = λ w e. cc

sought_returns : {W E A : Type 0} (c : Call W E (Option A)) → HasFuelCall (sought c)
sought_returns {W} {E} {A} c w = dropped (c w)
  where
    dropped : (r : Result (EditError E) (Option A) × W) → (quiet {W = W} r).0 ≢ err out_of_fuel
    dropped (ok x, w') = λ e. cc
    dropped (err x, w') = λ e. cc

module _ (S : Selections) where
  -- The calls of the selections do not stop for want of the editor's fuel.
  pub record Returns : Type 0 where
    pub set : (t : S.To) (x : Bytes) (v : S.Value) → HasFuelCall (S.set_value t x v)
    pub child : (t : S.To) (m : Def) (b : Bool) → HasFuelCall (S.to_child t m b)
    pub item : (t : S.To) (k : List S.Key) (r : ℕ) (b : Bool) → HasFuelCall (S.to_item t k r b)
    pub clear : (t : S.To) (x : Bytes) → HasFuelCall (S.clear_field t x)
    pub delete : (t : S.To) → HasFuelCall (S.delete t)
    pub begins : (t : S.To) (new root bubble : Bool) → HasFuelCall (S.begin_edit t new root bubble)
    pub ends : (t : S.To) (new root bubble : Bool) → HasFuelCall (S.end_edit t new root bubble)

  returns-Closed :
      Returns
      → (scope : Scope) → (scope ≡ any → Creating S (λ A c. HasFuelCall c))
      → Closed S scope (λ A c. HasFuelCall c)
  unfolding framed
  returns-Closed r scope creating = record {
    pure = λ x w e. cc;
    raise = coded;
    chain = HasFuel->>=;
    looks = λ g h w. h w w;
    frame = λ new root bubble t body h.
        let b = S.begin_edit t new root bubble in
        HasFuel->>= (b >> body) (λ _. S.end_edit t new root bubble)
          (HasFuel->>= b (λ _. body) (r.begins t new root bubble) (λ _. h))
          (λ _. r.ends t new root bubble);
    set = r.set;
    child = λ t m. r.child t m false;
    creating = creating;
  }

  deleted : Option S.To → Run S
  deleted o = elim o [ none ↦ return tt | some t ↦ S.delete t ]

  deleted_returns : Returns → (o : Option S.To) → HasFuelCall (deleted o)
  unfolding deleted
  deleted_returns r none = λ w e. cc
  deleted_returns r (some t) = r.delete t

  clear_def_returns : Returns → (t : S.To) (m : Def) → HasFuelCall (clear_def S t m)
  unfolding clear_def deleted
  clear_def_returns r t (leaf x) = r.clear t x
  clear_def_returns r t (container x ds) =
      HasFuel->>= (sought (S.find t x)) deleted (sought_returns (S.find t x)) (deleted_returns r)
  clear_def_returns r t (list x ds) =
      HasFuel->>= (sought (S.find t x)) deleted (sought_returns (S.find t x)) (deleted_returns r)
  clear_def_returns r t (choice x cs) =
      HasFuel->>= (sought (S.find t x)) deleted (sought_returns (S.find t x)) (deleted_returns r)

  clear_round : ℕ → ℕ → S.To → Iter → Option Def → Run S
  clear_round n turns t j o = elim o [
    | none ↦ return tt
    | some m ↦ clear_def S t m >> clear_from S n turns t j
  ]

  clear_round_returns :
      Returns
      → (n turns : ℕ) (t : S.To) (j : Iter) (o : Option Def)
      → ((m : Def) → o ≡ some m → HasFuelCall (clear_from S n turns t j))
      → HasFuelCall (clear_round n turns t j o)
  unfolding clear_round
  clear_round_returns r n turns t j none g = λ w e. cc
  clear_round_returns r n turns t j (some m) g =
      HasFuel->>= (clear_def S t m) (λ _. clear_from S n turns t j) (clear_def_returns r t m)
        (λ _. g m refl)

  -- A round behind what lookAhead says.
  looked_returns :
      (n turns : ℕ) (t : S.To) (i : Iter) (l : Result Stop Iter) (w : S.World)
      → Ends l i
      → ((j : Iter)
          → IsTidy j
          → weight j + one (next_of i) ≤ weight i
          → HasFuelCall (clear_round n turns t j (next_of i)))
      → (feed {A = Option Def × Iter}
          (run_iter (and_then l (λ j. ok (next_of i, j))) w)
          (λ mi. clear_round n turns t mi.1 mi.0)).0
        ≢ err out_of_fuel
  looked_returns n turns t i (err panics) w e g = λ q. cc
  looked_returns n turns t i (err Stop.out_of_fuel) w e g = absurd e
  looked_returns n turns t i (ok j) w e g = g j e.0 e.1 w

  clear_from_returns :
      Returns
      → (n turns : ℕ) (t : S.To) (i : Iter) → IsTidy i
      → weight i ≤ n
      → weight i < turns
      → HasFuelCall (clear_from S n turns t i)
  unfolding clear_from clear_round next_meta
  clear_from_returns r n zero t i h b l = absurd (omega (arith, l))
  clear_from_returns r n (suc turns) t i h b l = λ w.
      looked_returns n turns t i (look_ahead (S.choose_to t w) n i) w
        (look_ahead-Ends (S.choose_to t w) n i (sub_tidy i h) (omega (arith, b)))
        (λ j p c. clear_round_returns r n turns t j (next_of i) (λ m e.
          clear_from_returns r n turns t j p (omega (arith, b, c)) (omega (arith, l, c, ap one e))))

  started_returns :
      (n : ℕ) (ds : Defs) (t : S.To) (l : Result Stop Iter) (w : S.World)
      → Ends l (plain none (some ds))
      → ((j : Iter) → IsTidy j → weight j ≤ 1 + cost ds → HasFuelCall (clear_from S n n t j))
      → (feed (run_iter l w) (clear_from S n n t)).0 ≢ err out_of_fuel
  unfolding weight
  started_returns n ds t (err panics) w e g = λ q. cc
  started_returns n ds t (err Stop.out_of_fuel) w e g = absurd e
  started_returns n ds t (ok j) w e g = g j e.0 (omega (arith, e.1)) w

  clear_choice_case_returns :
      Returns → (t : S.To) (ds : Defs) → HasFuelCall (clear_choice_case S t ds)
  unfolding clear_choice_case new_iter weight
  clear_choice_case_returns r t ds = λ w.
      started_returns (cost ds + 2) ds t _ w
        (look_ahead-Ends (S.choose_to t w) (cost ds + 2) (plain none (some ds)) tt (omega arith))
        (λ j p c.
          clear_from_returns r (cost ds + 2) (cost ds + 2) t j p (omega (arith, c))
            (omega (arith, c)))

  returns_all : Returns → Closed S any (λ A c. HasFuelCall c)
  returns_all r = returns-Closed r any (λ e. record {
    clear_case = clear_choice_case_returns r;
    create = λ t m. r.child t m true;
    item = r.item;
  })

  -- No edit stops for want of fuel, whatever the strategy and whatever the destination answers to
  -- Choose while a case is cleared: the bound on the rounds of clearChoiceCase is enough. It holds of
  -- the edit of a container and of that of a list, if the calls of the selections return.
  pub edit-returns :
      (u : Bool) (s : Strategy) (ds : Defs) (from : S.From) (to : S.To)
      → Returns
      → HasFuelCall (edit S u s ds from to) × HasFuelCall (edit_list S u s ds from to)
  edit-returns u s ds from to r =
      let c = returns_all r in (edit-C S c u s ds from to tt, edit_list-C S c refl u s ds from to)
