-- ===== src/Node/Edit/Closed/Whole.antt =====
-- node/edit.go: an edit keeps what its calls keep.
use c2g.Common.{
  ◌≡◌, Bytes, bytes_eq, Bool, true, false, Option, none, some, if◌then◌else◌, inl, inr,
}
use c2g.Meta.Defs.{
  Def, Defs, Cases, leaf, container, list, choice, nil, more, case_of, no_cases, one_of,
}
use c2g.Node.Edit.{Strategy, upsert, Call, return, Selections, Home}
use c2g.Node.Edit.Editor.{Run, edit_rows, framed, edit_defs, edit_def, edit_case, edit, edit_list}
use c2g.Node.Edit.Closed.{
  HasNoList, HasNoListDef, HasNoListCases, Scope, any, Fits, fits-cases, fits_any, fits-map,
  Predicate, Closed,
}
use c2g.Node.Edit.Closed.Calls.{edit_leaf-C, edit_node-C, edit_rows-C}

module _ (S : Selections) {scope : Scope} {C : Predicate S} (h : Closed S scope C) where
  if_C :
      {A : Type 0} (b : Bool) {c d : Call S.World S.Error A}
      → C A c
      → C A d
      → C A (if b then c else d)
  if_C true p q = p
  if_C false p q = q

  chosen_C :
      (o : Option Bytes) {f : Bytes → Run S}
      → ((k : Bytes) → C (Unit {0}) (f k))
      → C (Unit {0}) (elim o [ none ↦ return tt | some k ↦ f k ])
  chosen_C none g = h.pure tt
  chosen_C (some k) g = g k

  -- The condition on the definitions that the scope makes.
  mutual
    unfolding edit_defs HasNoList

    edit_defs-C :
        (u : Bool) (s : Strategy) (new : Bool) (home : Home) (ds : Defs) (from : S.From) (to : S.To)
        → Fits scope s (HasNoList ds)
        → C (Unit {0}) (edit_defs S u s new home ds from to)
    edit_defs-C u s new home nil from to f = h.pure tt
    edit_defs-C u s new home (more d ds) from to f =
        h.chain _ _ (edit_def-C u s new home d from to (fits-map scope s (λ p. p.0) f))
          (λ _. edit_defs-C u s new home ds from to (fits-map scope s (λ p. p.1) f))

    edit_def-C :
        (u : Bool) (s : Strategy) (new : Bool) (home : Home) (d : Def) (from : S.From) (to : S.To)
        → Fits scope s (HasNoListDef d)
        → C (Unit {0}) (edit_def S u s new home d from to)
    edit_def-C u s new home (leaf x) from to f = edit_leaf-C S h u s new home x from to (Unit {0}) f
    edit_def-C u s new home (container x ds) from to f =
        edit_node-C S h (λ s' n a b. framed S n false false b (edit_defs S u s' n none ds a b)) s
          (HasNoList ds) f (λ n a b. h.frame n false false b _ (edit_defs-C u s n none ds a b f))
          home (container x ds) from to
    edit_def-C u s new home (list x ds) from to f = elim (fits-cases scope s _ f) [
      | inr (e, p) ↦ absurd p
      | inl e ↦
          edit_node-C S h
            (λ s' n a b. framed S n false false b (
              edit_rows S (λ s' n a b. framed S n false false b (edit_defs S u s' n none ds a b)) s'
                0 (S.rows a) b))
            s ⊥ f
            (λ n a b. h.frame n false false b _ (
              edit_rows-C S h (h.creating e)
                (λ s' n a b. framed S n false false b (edit_defs S u s' n none ds a b))
                (λ n' a' b'.
                  h.frame n' false false b' _ (
                    edit_defs-C u upsert n' none ds a' b' (fits_any scope upsert (HasNoList ds) e)))
                s 0 (S.rows a) b))
            home (list x ds) from to
    ]
    edit_def-C u s new home (choice x cs) from to f =
        chosen_C (S.choose_from from x cs)
          (λ k. edit_case-C u s new (some ((x, cs), k)) k cs from to f)

    edit_case-C :
        (u : Bool) (s : Strategy) (new : Bool) (home : Home) (k : Bytes) (cs : Cases)
        (from : S.From) (to : S.To)
        → Fits scope s (HasNoListCases cs)
        → C (Unit {0}) (edit_case S u s new home k cs from to)
    edit_case-C u s new home k no_cases from to f = h.pure tt
    edit_case-C u s new home k (one_of (case_of x ds) cs) from to f =
        if_C (bytes_eq x k) (edit_defs-C u s new home ds from to (fits-map scope s (λ p. p.0) f))
          (edit_case-C u s new home k cs from to (fits-map scope s (λ p. p.1) f))

  pub edit-C :
      (u : Bool) (s : Strategy) (ds : Defs) (from : S.From) (to : S.To)
      → Fits scope s (HasNoList ds)
      → C (Unit {0}) (edit S u s ds from to)
  unfolding edit
  edit-C u s ds from to f = h.frame false true true to _ (edit_defs-C u s false none ds from to f)

  pub edit_list-C :
      scope ≡ any
      → (u : Bool) (s : Strategy) (ds : Defs) (from : S.From) (to : S.To)
      → C (Unit {0}) (edit_list S u s ds from to)
  unfolding edit_list
  edit_list-C e u s ds from to = h.frame false true true to _ (
      edit_rows-C S h (h.creating e)
        (λ s' n a b. framed S n false false b (edit_defs S u s' n none ds a b))
        (λ n a b.
          h.frame n false false b _
            (edit_defs-C u upsert n none ds a b (fits_any scope upsert (HasNoList ds) e)))
        s 0 (S.rows from) to)
