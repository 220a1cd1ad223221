-- ===== src/Node/Edit/Tests.antt =====
-- Edits on concrete data.
use c2g.Common.{◌≡◌, refl, [], ◌∷◌, codes, bytes_eq, false, ok, err}
use c2g.Meta.Defs.{Def, Defs, leaf, container, choice, nil, more, case_of, no_cases, one_of}
use c2g.Node.Choices.{look_ahead, new_iter, next_meta}
use c2g.Node.Choices.Flatten.{cost}
use c2g.Node.Edit.{upsert, insert, update, not_found, conflict}
use c2g.Node.Edit.Editor.{
  clear_def, clear_from, clear_choice_case, clear_chosen, clear_on_different, clears, edit_leaf,
  place_child, edit_node, place_item, edit_rows, framed, edit_defs, edit, edit_list,
}
use c2g.Node.Edit.Closed.{HasNoList}
use c2g.Node.Edit.Memory.{
  Source, fields, table, no_children, child_of, no_items, item_of, Store, memory, used, shown,
  memory-Nests, memory-Returns, memory-UpdatesKeep,
}
use c2g.Node.Edit.Update.{edit-update_keeps}
use c2g.Node.Edit.Nested.{Restores, edit-nested}
use c2g.Node.Edit.Returns.{HasFuelCall, edit-returns}

-- leaf id; choice via { case tcp { leaf port } case unix { leaf file } }; container stats { leaf hits }
abbrev via : Def
via = choice (codes "via") (
    one_of (case_of (codes "tcp") (more (leaf (codes "port")) nil))
      (one_of (case_of (codes "unix") (more (leaf (codes "file")) nil)) no_cases))

abbrev stats : Def
stats = container (codes "stats") (more (leaf (codes "hits")) nil)

abbrev server : Defs
server = more (leaf (codes "id")) (more via (more stats nil))

abbrev stats_only : Defs
stats_only = more stats nil

abbrev counted : Source
counted = fields ((codes "hits", 4) ∷ []) no_children

abbrev over_file : Source
over_file =
    fields ((codes "id", 1) ∷ (codes "file", 2) ∷ []) (child_of (codes "stats") counted no_children)

abbrev empty : Store
empty = record { begun = []; made = []; values = [] }

abbrev over_port : Store
over_port = record { begun = []; made = []; values = (([], codes "port"), 7) ∷ [] }

abbrev edited : Store
edited = record {
  begun = [];
  made = (codes "stats" ∷ []) ∷ [];
  values =
      ((codes "stats" ∷ [], codes "hits"), 4)
      ∷ (([], codes "file"), 2)
      ∷ (([], codes "id"), 1)
      ∷ [];
}

-- The value of the other case is cleared, and the missing container created.
upsert_runs : edit memory false upsert server over_file [] over_port ≡ (ok tt, edited)
unfolding edit edit_defs edit_leaf edit_node place_child framed clears clear_on_different
    clear_chosen clear_choice_case clear_from clear_def look_ahead new_iter next_meta cost used
    shown bytes_eq
upsert_runs = refl

update_missing : (edit memory false update stats_only over_file [] empty).0 ≡ err not_found
unfolding edit edit_defs edit_leaf edit_node place_child framed clears bytes_eq
update_missing = refl

insert_existing : (edit memory false insert stats_only over_file [] edited).0 ≡ err conflict
unfolding edit edit_defs edit_leaf edit_node place_child framed clears bytes_eq
insert_existing = refl

-- A row of the list has a container that the item of the destination lacks: an update, which is to
-- create nothing, creates it.
abbrev one_row : Source
one_row =
    table (item_of (codes "a") (fields [] (child_of (codes "stats") counted no_children)) no_items)

abbrev bare_item : Store
bare_item = record { begun = []; made = (codes "a" ∷ []) ∷ []; values = [] }

update_list_creates :
    (edit_list memory false update stats_only one_row [] bare_item).1.made
    ≡ (codes "stats" ∷ codes "a" ∷ []) ∷ (codes "a" ∷ []) ∷ []
unfolding edit_list edit_defs edit_leaf edit_node edit_rows place_item place_child framed clears
    clear_on_different bytes_eq
update_list_creates = refl

-- A choice in a case of another: the outer choice is not looked at, and the values of both of its
-- cases stand in the destination.
abbrev nested : Defs
nested =
    more
      (choice (codes "outer") (
        one_of (case_of (codes "a") (more (leaf (codes "x")) nil))
          (one_of (case_of (codes "b") (more via nil)) no_cases)))
      nil

abbrev has_x : Store
has_x = record { begun = []; made = []; values = (([], codes "x"), 7) ∷ [] }

nested_choice_kept :
    (edit memory false upsert nested
      (fields ((codes "port", 8) ∷ []) no_children)
      []
      has_x).1.values
    ≡ (([], codes "port"), 8) ∷ (([], codes "x"), 7) ∷ []
unfolding edit edit_defs edit_leaf framed clears clear_on_different clear_chosen used shown bytes_eq
nested_choice_kept = refl

edit-update_keeps_example :
    (edit memory false update server over_file [] edited).1.made ≡ (codes "stats" ∷ []) ∷ []
unfolding HasNoList
edit-update_keeps_example =
    edit-update_keeps memory (λ w. w.made ≡ (codes "stats" ∷ []) ∷ []) false server over_file []
      (tt, (((tt, tt), ((tt, tt), tt)), ((tt, tt), tt)))
      (memory-UpdatesKeep ((codes "stats" ∷ []) ∷ [])) edited refl

edit-nested_example :
    Restores (λ (w : Store). w.begun) (edit memory false upsert server over_file [])
    × Restores (λ (w : Store). w.begun) (edit_list memory false upsert server over_file [])
edit-nested_example =
    edit-nested memory (λ w. w.begun) false upsert server over_file [] memory-Nests

edit-returns_example :
    HasFuelCall (edit memory false upsert server over_file [])
    × HasFuelCall (edit_list memory false upsert server over_file [])
edit-returns_example = edit-returns memory false upsert server over_file [] memory-Returns
