-- ===== src/Node/Callbacks/Tests.antt =====
-- Edits and deletions of concrete nodes.
use c2g.Common.{ℕ, ◌≡◌, refl, List, [], ◌∷◌, ◌++◌, true, false, none, some, ◌==◌, if◌then◌else◌}
use c2g.Node.Callbacks.{
  NodeRequest, Callback, Callbacks, handle, trigger_begin_edit, trigger_end_edit, begin_from,
  end_from, begin_edit_of, end_edit_of, remove_from_parent, delete_of,
}
use c2g.Node.Callbacks.Order.{in_turn, begin_triggers, end_triggers, bubbled, edits-in_turn}

-- Callbacks that write down what they are: 1 is a begin, 2 an end, 3 a deletion, 4 a removal; nodes
-- and triggers are numbers, and the node 7 refuses to begin an edit and to be deleted.
abbrev logged : ℕ → ℕ → Callback (List (ℕ × ℕ)) (Unit {0})
logged k n w = (none, w ++ (k, n) ∷ [])

abbrev refused : ℕ → ℕ → Callback (List (ℕ × ℕ)) (Unit {0})
refused k n w = (if n == 7 then some tt else none, w ++ (k, n) ∷ [])

abbrev log : Callbacks ℕ ℕ (List (ℕ × ℕ)) (Unit {0})
log = record {
  on_begin = λ t. some (λ r. logged 1 t);
  on_end = λ t. none;
  begin_edit = λ n r. refused 1 n;
  end_edit = λ n r. logged 2 n;
  delete = λ n. refused 3 n;
  remove_item = λ p n. logged 4 n;
  remove_child = λ p n. logged 4 n;
  is_nil = tt;
}

abbrev request : NodeRequest ℕ
request = record { new = false; source = 5; edit_root = true }

begin_runs :
    begin_edit_of log (100 ∷ []) request true (5 ∷ 6 ∷ []) []
    ≡ (none, (1, 100) ∷ (1, 5) ∷ (1, 6) ∷ [])
unfolding begin_edit_of trigger_begin_edit handle begin_from
begin_runs = refl

begin_refused :
    begin_edit_of log (100 ∷ []) request true (7 ∷ 6 ∷ []) [] ≡ (some tt, (1, 100) ∷ (1, 7) ∷ [])
unfolding begin_edit_of trigger_begin_edit handle begin_from
begin_refused = refl

delete_runs :
    delete_of log [] true 5 6 [] []
    ≡ (none, (3, 5) ∷ (1, 5) ∷ (1, 6) ∷ (4, 5) ∷ (2, 5) ∷ (2, 6) ∷ [])
unfolding delete_of begin_edit_of trigger_begin_edit trigger_end_edit begin_from end_edit_of
    end_from remove_from_parent
delete_runs = refl

edits-in_turn_example :
    (begin_edit_of log (100 ∷ []) request true (5 ∷ 6 ∷ [])
      ≡ in_turn (
          begin_triggers log request (100 ∷ [])
          ++ bubbled log log.begin_edit true request 5 (6 ∷ [])))
    × (end_edit_of log (100 ∷ []) request true 5 (6 ∷ [])
        ≡ in_turn (
            bubbled log log.end_edit true request 5 (6 ∷ [])
            ++ end_triggers log request (100 ∷ [])))
edits-in_turn_example = edits-in_turn log (100 ∷ []) request true 5 (6 ∷ [])
