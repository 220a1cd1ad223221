-- ===== src/Node/Edit/Memory.antt =====
-- Selections over data in memory, for the tests of edits.
use c2g.Common.{
  ℕ, ◌≡◌, ◌≢◌, refl, List, [], ◌∷◌, Bytes, bytes_eq, Bool, true, false, ◌||◌, ◌&&◌, Option, none,
  some, Result, ok, err, if◌then◌else◌, arith,
}
use c2g.Meta.Defs.{
  Def, Defs, Cases, leaf, container, list, choice, nil, more, case_of, no_cases, one_of, ident_of,
}
use c2g.Node.Edit.{EditError, selection, out_of_fuel, Call, Rows, done, row, Selections}
use c2g.Node.Edit.Update.{UpdatesKeep}
use c2g.Node.Edit.Nested.{Restores, Nests}
use c2g.Node.Edit.Returns.{Returns}

-- The source: the leaf values of a container, its children by their names, and the rows of a list.
mutual
  pub data Source : Type 0 where
    fields : List (Bytes × ℕ) → Children → Source
    table : Items → Source

  pub data Children : Type 0 where
    no_children : Children
    child_of : Bytes → Source → Children → Children

  pub data Items : Type 0 where
    no_items : Items
    item_of : Bytes → Source → Items → Items

abbrev pub assoc : {A : Type 0} → Bytes → List (Bytes × A) → Option A
assoc x [] = none
assoc x ((k, v) ∷ l) = if bytes_eq k x then some v else assoc x l

abbrev pub child_at : Bytes → Children → Option Source
child_at x no_children = none
child_at x (child_of k s cs) = if bytes_eq k x then some s else child_at x cs

abbrev pub rows_of : Items → Rows Source Bytes (Unit {0})
rows_of no_items = done
rows_of (item_of k s is) = row s (k ∷ []) (rows_of is)

-- The destination: the selections begun, those that are there, and the leaf values. A selection is
-- its path, the name that comes last first.
abbrev pub Place : Type 0
Place = List Bytes

pub record Store : Type 0 where
  pub begun : List Place
  pub made : List Place
  pub values : List ((Place × Bytes) × ℕ)

abbrev pub place_eq : Place → Place → Bool
place_eq [] [] = true
place_eq (x ∷ p) (y ∷ q) = bytes_eq x y && place_eq p q
place_eq _ _ = false

abbrev pub is_made : Place → List Place → Bool
is_made p [] = false
is_made p (q ∷ l) = place_eq p q || is_made p l

abbrev pub is_set : Place → Bytes → List ((Place × Bytes) × ℕ) → Bool
is_set p x [] = false
is_set p x (((q, y), v) ∷ l) = (place_eq p q && bytes_eq x y) || is_set p x l

abbrev pub unset : Place → Bytes → List ((Place × Bytes) × ℕ) → List ((Place × Bytes) × ℕ)
unset p x [] = []
unset p x (((q, y), v) ∷ l) =
    if place_eq p q && bytes_eq x y then unset p x l else ((q, y), v) ∷ unset p x l

abbrev pub unmade : Place → List Place → List Place
unmade p [] = []
unmade p (q ∷ l) = if place_eq p q then unmade p l else q ∷ unmade p l

-- Whether the destination has data of some definition.
unfoldable mutual
  pub used : Store → Place → Defs → Bool
  used w p nil = false
  used w p (more d ds) = used_def w p d || used w p ds

  pub used_def : Store → Place → Def → Bool
  used_def w p (leaf x) = is_set p x w.values
  used_def w p (container x ds) = is_made (x ∷ p) w.made
  used_def w p (list x ds) = is_made (x ∷ p) w.made
  used_def w p (choice x cs) = used_case w p cs

  pub used_case : Store → Place → Cases → Bool
  used_case w p no_cases = false
  used_case w p (one_of (case_of x ds) cs) = used w p ds || used_case w p cs

abbrev pub chosen : Store → Place → Cases → Option Bytes
chosen w p no_cases = none
chosen w p (one_of (case_of x ds) cs) = if used w p ds then some x else chosen w p cs

abbrev pub value_at : Source → Bytes → Option ℕ
value_at (fields l cs) x = assoc x l
value_at (table is) x = none

abbrev pub source_at : Source → Bytes → Option Source
source_at (fields l cs) x = child_at x cs
source_at (table is) x = none

abbrev pub some_of : {A : Type 0} → Option A → Bool
some_of none = false
some_of (some x) = true

-- Whether the source has data of some definition.
unfoldable mutual
  pub shown : Source → Defs → Bool
  shown s nil = false
  shown s (more d ds) = shown_def s d || shown s ds

  pub shown_def : Source → Def → Bool
  shown_def s (leaf x) = some_of (value_at s x)
  shown_def s (container x ds) = some_of (source_at s x)
  shown_def s (list x ds) = some_of (source_at s x)
  shown_def s (choice x cs) = shown_case s cs

  pub shown_case : Source → Cases → Bool
  shown_case s no_cases = false
  shown_case s (one_of (case_of x ds) cs) = shown s ds || shown_case s cs

abbrev pub choose_source : Source → Cases → Option Bytes
choose_source s no_cases = none
choose_source s (one_of (case_of x ds) cs) = if shown s ds then some x else choose_source s cs

abbrev pub source_rows : Source → Rows Source Bytes (Unit {0})
source_rows (fields l cs) = done
source_rows (table is) = rows_of is

abbrev pub to_place : Place → Bool → Call Store (Unit {0}) (Option Place)
to_place p true w = (ok (some p), record w { made = p ∷ w.made })
to_place p false w = (ok (if is_made p w.made then some p else none), w)

abbrev pub keyed : Place → List Bytes → Place
keyed p [] = p
keyed p (k ∷ ks) = k ∷ p

abbrev pub ended : Store → List Place → Result (EditError (Unit {0})) (Unit {0}) × Store
ended w [] = (err (selection tt), w)
ended w (p ∷ l) = (ok tt, record w { begun = l })

abbrev pub memory : Selections
memory = record {
  From = Source;
  To = Place;
  World = Store;
  Value = ℕ;
  Key = Bytes;
  Error = Unit {0};
  choose_from = λ f x cs. choose_source f cs;
  get_value = λ f x use_default. ok (value_at f x);
  from_child = λ f m. ok (source_at f (ident_of m));
  rows = source_rows;
  choose_to = λ p w x cs. some (chosen w p cs);
  set_value = λ p x v w. (ok tt, record w { values = ((p, x), v) ∷ unset p x w.values });
  clear_field = λ p x w. (ok tt, record w { values = unset p x w.values });
  to_child = λ p m new. to_place (ident_of m ∷ p) new;
  to_item = λ p key r new. to_place (keyed p key) new;
  find = λ p x. to_place (x ∷ p) false;
  delete = λ p w. (ok tt, record w { made = unmade p w.made });
  begin_edit = λ p new root bubble w. (ok tt, record w { begun = p ∷ w.begun });
  end_edit = λ p new root bubble w. ended w w.begun;
}

place_restores : (p : Place) (b : Bool) → Restores (λ (w : Store). w.begun) (to_place p b)
place_restores p true w x e = refl
place_restores p false w x e = refl

ended_lem :
    (w : Store) (l rest : List Place) (p : Place) → l ≡ p ∷ rest → (ended w l).1.begun ≡ rest
ended_lem w [] rest p e = ground arith
ended_lem w (q ∷ l) rest p e = ground (arith, e)

pub memory-Nests : Nests memory (λ w. w.begun)
memory-Nests = record {
  set = λ p x v w y e. refl;
  child = λ p m b. place_restores (ident_of m ∷ p) b;
  item = λ p k r b. place_restores (keyed p k) b;
  clear = λ p x w y e. refl;
  find = λ p x w y e. refl;
  delete = λ p w y e. refl;
  begins = λ p new root bubble w e. refl;
  ends = λ p new root bubble w rest h e. ended_lem w w.begun rest p h;
}

place_returns : (p : Place) (b : Bool) (w : Store) → (to_place p b w).0 ≢ err out_of_fuel
place_returns p true w = λ e. cc
place_returns p false w = λ e. cc

ended_returns : (w : Store) (l : List Place) → (ended w l).0 ≢ err out_of_fuel
ended_returns w [] = λ e. cc
ended_returns w (p ∷ l) = λ e. cc

pub memory-Returns : Returns memory
memory-Returns = record {
  set = λ p x v w e. cc;
  child = λ p m b. place_returns (ident_of m ∷ p) b;
  item = λ p k r b. place_returns (keyed p k) b;
  clear = λ p x w e. cc;
  delete = λ p w e. cc;
  begins = λ p new root bubble w e. cc;
  ends = λ p new root bubble w. ended_returns w w.begun;
}

pub memory-UpdatesKeep : (l : List Place) → UpdatesKeep memory (λ w. w.made ≡ l)
memory-UpdatesKeep l = record {
  set = λ p x v w i. i;
  child = λ p m w i. i;
  begins = λ p new root bubble w i. i;
  ends = λ p new root bubble w i. ended_keeps w w.begun i;
}
  where
    ended_keeps : (w : Store) (b : List Place) → w.made ≡ l → (ended w b).1.made ≡ l
    ended_keeps w [] i = i
    ended_keeps w (p ∷ b) i = i
