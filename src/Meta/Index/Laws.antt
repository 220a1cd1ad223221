-- ===== src/Meta/Index/Laws.antt =====
-- meta/core_gen.go: the definitions that a container indexes.
use c2g.Common.{
  ◌≡◌, refl, sym, ◌∙◌, List, [], ◌∷◌, ◌++◌, Bytes, bytes_eq, Option, none, some, if◌then◌else◌,
}
use c2g.Meta.Defs.{
  Def, Defs, Cases, leaf, container, list, choice, nil, more, case_of, no_cases, one_of, ident_of,
}
use c2g.Meta.Index.{Holder, index_data_definition, index_each, index_cases, index_of}

-- The definitions that a container indexes: its own, and in place of a choice those that stand in its
-- cases, a choice among them too.
abbrev pub of_case : Defs → List Def
of_case nil = []
of_case (more d ds) = d ∷ of_case ds

abbrev pub of_cases : Cases → List Def
of_cases no_cases = []
of_cases (one_of (case_of x ds) cs) = of_case ds ++ of_cases cs

abbrev pub shown : Def → List Def
shown (choice x cs) = of_cases cs
shown d = d ∷ []

abbrev pub all_shown : List Def → List Def
all_shown [] = []
all_shown (d ∷ ds) = shown d ++ all_shown ds

-- The first definition with an identifier.
abbrev pub first_named : Bytes → List Def → Option Def
first_named x [] = none
first_named x (d ∷ ds) = if bytes_eq (ident_of d) x then some d else first_named x ds

-- No two definitions have the same identifier.
abbrev pub IsDistinct : List Def → Type 0
IsDistinct [] = Unit {0}
IsDistinct (d ∷ ds) = (first_named (ident_of d) ds ≡ none) × IsDistinct ds

-- One definition after the other.
unfoldable pub index_list : List Def → Holder → Option Holder
index_list [] h = some h
index_list (d ∷ ds) h = elim (index_data_definition d h) [
  | none ↦ none
  | some h' ↦ index_list ds h'
]

abbrev pub then_list : List Def → Option Holder → Option Holder
then_list ds none = none
then_list ds (some h) = index_list ds h

pub index_list-append :
    (ds es : List Def) (h : Holder) → index_list (ds ++ es) h ≡ then_list es (index_list ds h)
unfolding index_list
index_list-append [] es h = refl
index_list-append (d ∷ ds) es h = on (index_data_definition d h) (index_list-append ds es)
  where
    on :
        (o : Option Holder)
        → ((h' : Holder) → index_list (ds ++ es) h' ≡ then_list es (index_list ds h'))
        → elim o [ none ↦ none | some h' ↦ index_list (ds ++ es) h' ]
          ≡ then_list es (elim o [ none ↦ none | some h' ↦ index_list ds h' ])
    on none ih = refl
    on (some h') ih = ih h'

index_each-eq : (ds : Defs) (h : Holder) → index_each ds h ≡ index_list (of_case ds) h
unfolding index_each index_list
index_each-eq nil h = refl
index_each-eq (more d ds) h = on (index_data_definition d h) (index_each-eq ds)
  where
    on :
        (o : Option Holder)
        → ((h' : Holder) → index_each ds h' ≡ index_list (of_case ds) h')
        → elim o [ none ↦ none | some h' ↦ index_each ds h' ]
          ≡ elim o [ none ↦ none | some h' ↦ index_list (of_case ds) h' ]
    on none ih = refl
    on (some h') ih = ih h'

index_cases-eq : (cs : Cases) (h : Holder) → index_cases cs h ≡ index_list (of_cases cs) h
unfolding index_cases index_list
index_cases-eq no_cases h = refl
index_cases-eq (one_of (case_of x ds) cs) h =
    rw (index_each-eq ds h, index_cases) (on (index_list (of_case ds) h) (index_cases-eq cs))
    ∙ sym (index_list-append (of_case ds) (of_cases cs) h)
  where
    on :
        (o : Option Holder)
        → ((h' : Holder) → index_cases cs h' ≡ index_list (of_cases cs) h')
        → elim o [ none ↦ none | some h' ↦ index_cases cs h' ] ≡ then_list (of_cases cs) o
    on none ih = refl
    on (some h') ih = ih h'

index_one : (d : Def) (h : Holder) → index_data_definition d h ≡ index_list (d ∷ []) h
unfolding index_list
index_one d h = on (index_data_definition d h)
  where
    on : (o : Option Holder) → o ≡ elim o [ none ↦ none | some h' ↦ some h' ]
    on none = refl
    on (some h') = refl

pub index_of-eq : (d : Def) (h : Holder) → index_of d h ≡ index_list (shown d) h
unfolding index_of
index_of-eq (choice x cs) h = index_cases-eq cs h
index_of-eq (leaf x) h = index_one (leaf x) h
index_of-eq (container x ds) h = index_one (container x ds) h
index_of-eq (list x ds) h = index_one (list x ds) h
