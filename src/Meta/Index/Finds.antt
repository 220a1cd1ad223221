-- ===== src/Meta/Index/Finds.antt =====
-- meta/core_gen.go: what the index of a container finds.
use c2g.Common.{
  ◌≡◌, refl, sym, ap, ◌∙◌, inl, inr, List, [], ◌∷◌, ◌++◌, Bytes, bytes_eq, bytes_eq_iff,
  bytes_eq_refl, true, Option, none, some, arith, Bool-cases,
}
use mathlib.Core.List.{append_assoc, append-nil}
use mathlib.Core.Path.{subst}
use c2g.Meta.Defs.{Def, ident_of}
use c2g.Meta.Index.{
  Holder, find_def, index_data_definition, add_data_definition, add_all, data_definition,
}
use c2g.Meta.Index.Laws.{
  shown, all_shown, first_named, IsDistinct, index_list, then_list, index_list-append, index_of-eq,
}

abbrev or_else : Option Def → Option Def → Option Def
or_else none o = o
or_else (some d) o = some d

or_none : (o : Option Def) → o ≡ or_else o none
or_none none = refl
or_none (some d) = refl

-- What the index finds behind the definitions, which are not there before.
record Indexed (ds : List Def) (h h' : Holder) : Type 0 where
  finds : (x : Bytes) → find_def x h'.index ≡ or_else (find_def x h.index) (first_named x ds)
  fresh : (x : Bytes) (d : Def) → find_def x h.index ≡ some d → first_named x ds ≡ none
  distinct : IsDistinct ds
  same_defs : h'.data_defs ≡ h.data_defs

abbrev entered : Def → Holder → Option Def → Option Holder
entered d h (some x) = none
entered d h none = some (record h { index = (ident_of d, d) ∷ h.index })

-- A definition that is not there, in front of others.
Indexed-cons :
    (d : Def) (ds : List Def) (h h' : Holder)
    → find_def (ident_of d) h.index ≡ none
    → Indexed ds (record h { index = (ident_of d, d) ∷ h.index }) h'
    → Indexed (d ∷ ds) h h'
Indexed-cons d ds h h' n i = record {
  finds = λ x. i.finds x ∙ elim (Bool-cases (bytes_eq (ident_of d) x)) [
    | inl e ↦ rw e (rw (missing x e) refl)
    | inr e ↦ rw e refl
  ];
  fresh = λ x d' f. elim (Bool-cases (bytes_eq (ident_of d) x)) [
    | inl e ↦ let m = missing x e in cc
    | inr e ↦ rw e (i.fresh x d' (rw e f))
  ];
  distinct = (i.fresh (ident_of d) d (rw (bytes_eq_refl (ident_of d)) refl), i.distinct);
  same_defs = i.same_defs;
}
  where
    missing : (x : Bytes) → bytes_eq (ident_of d) x ≡ true → find_def x h.index ≡ none
    missing x e = ap (λ y. find_def y h.index) (sym ((bytes_eq_iff (ident_of d) x).0 e)) ∙ n

index_list-Indexed : (ds : List Def) (h h' : Holder) → index_list ds h ≡ some h' → Indexed ds h h'
unfolding index_list index_data_definition
index_list-Indexed [] h h' e =
    let q : h ≡ h' = ground (arith, e) in
    subst (Indexed [] h) q (record {
      finds = λ x. or_none (find_def x h.index);
      fresh = λ x d f. refl;
      distinct = tt;
      same_defs = refl;
    })
index_list-Indexed (d ∷ ds) h h' e =
    on (find_def (ident_of d) h.index) refl e (index_list-Indexed ds)
  where
    on :
        (o : Option Def)
        → find_def (ident_of d) h.index ≡ o
        → then_list ds (entered d h o) ≡ some h'
        → ((h1 h2 : Holder) → index_list ds h1 ≡ some h2 → Indexed ds h1 h2)
        → Indexed (d ∷ ds) h h'
    on (some x) q e ih = cc
    on none q e ih =
        Indexed-cons d ds h h' q (ih (record h { index = (ident_of d, d) ∷ h.index }) h' e)

abbrev pub empty : Holder
empty = record { data_defs = []; index = [] }

abbrev with_defs : List Def → Option Holder → Option Holder
with_defs l none = none
with_defs l (some h) = some (record h { data_defs = l })

with_defs-with_defs :
    (l l' : List Def) (o : Option Holder) → with_defs l (with_defs l' o) ≡ with_defs l o
with_defs-with_defs l l' none = refl
with_defs-with_defs l l' (some h) = refl

-- Indexing does not look at the definitions.
index_list-with_defs :
    (ds l : List Def) (h : Holder)
    → index_list ds (record h { data_defs = l }) ≡ with_defs l (index_list ds h)
unfolding index_list index_data_definition
index_list-with_defs [] l h = refl
index_list-with_defs (d ∷ ds) l h =
    on (find_def (ident_of d) h.index)
      (index_list-with_defs ds l (record h { index = (ident_of d, d) ∷ h.index }))
  where
    on :
        (o : Option Def)
        → index_list ds (record { data_defs = l; index = (ident_of d, d) ∷ h.index })
          ≡ with_defs l (index_list ds (record h { index = (ident_of d, d) ∷ h.index }))
        → then_list ds (entered d (record h { data_defs = l }) o)
          ≡ with_defs l (then_list ds (entered d h o))
    on none ih = ih
    on (some x) ih = refl

add_all-eq :
    (ds : List Def) (h : Holder)
    → add_all ds h ≡ with_defs (h.data_defs ++ ds) (index_list (all_shown ds) h)
unfolding add_all add_data_definition index_list
add_all-eq [] h = ap (λ l. some (record h { data_defs = l })) (sym (append-nil h.data_defs))
add_all-eq (d ∷ ds) h =
    ap then_add (index_of-eq d h)
    ∙ on (index_list (shown d) h) refl (add_all-eq ds)
    ∙ ap (with_defs (h.data_defs ++ d ∷ ds)) (sym (index_list-append (shown d) (all_shown ds) h))
  where
    appended : Option Holder → Option Holder
    appended none = none
    appended (some h') = some (record h' { data_defs = h'.data_defs ++ d ∷ [] })

    go_on : Option Holder → Option Holder
    go_on none = none
    go_on (some h') = add_all ds h'

    then_add : Option Holder → Option Holder
    then_add o = go_on (appended o)

    on :
        (o : Option Holder)
        → index_list (shown d) h ≡ o
        → ((h' : Holder)
            → add_all ds h' ≡ with_defs (h'.data_defs ++ ds) (index_list (all_shown ds) h'))
        → then_add o ≡ with_defs (h.data_defs ++ d ∷ ds) (then_list (all_shown ds) o)
    on none q ih = refl
    on (some h1) q ih =
        let e = (index_list-Indexed (shown d) h h1 q).same_defs in
        let l = h1.data_defs ++ d ∷ [] in
        ih (record h1 { data_defs = l })
        ∙ ap (with_defs (l ++ ds)) (index_list-with_defs (all_shown ds) l h1)
        ∙ with_defs-with_defs (l ++ ds) l (index_list (all_shown ds) h1)
        ∙ ap (λ m. with_defs m (index_list (all_shown ds) h1))
            (append_assoc h1.data_defs (d ∷ []) ds ∙ ap (λ m. m ++ d ∷ ds) e)

-- A container finds the first definition with an identifier among its own and, in place of a choice,
-- those that stand in its cases; no two of them have the same identifier.
pub add_all-finds :
    (ds : List Def) (h : Holder) (x : Bytes)
    → add_all ds empty ≡ some h
    → (data_definition x h ≡ first_named x (all_shown ds))
      × IsDistinct (all_shown ds)
      × (h.data_defs ≡ ds)
unfolding data_definition
add_all-finds ds h x e = on (index_list (all_shown ds) empty) refl (sym (add_all-eq ds empty) ∙ e)
  where
    on :
        (o : Option Holder)
        → index_list (all_shown ds) empty ≡ o
        → with_defs ds o ≡ some h
        → (find_def x h.index ≡ first_named x (all_shown ds))
          × IsDistinct (all_shown ds)
          × (h.data_defs ≡ ds)
    on none q f = cc
    on (some h1) q f =
        let i = index_list-Indexed (all_shown ds) empty h1 q in
        let g : record h1 { data_defs = ds } ≡ h = ground (arith, f) in
        (
          ap (λ (k : Holder). find_def x k.index) (sym g) ∙ i.finds x,
          i.distinct,
          ap (λ (k : Holder). k.data_defs) (sym g),
        )
