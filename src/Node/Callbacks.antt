-- ===== src/Node/Callbacks.antt =====
-- node/selection.go: beginEdit, endEdit and Delete, and node/trigger.go: the triggers that they call.
pub mod Order
mod Tests
use c2g.Common.{
  List, [], ◌∷◌, ◌++◌, Bool, true, false, not, ◌||◌, Option, none, some, if◌then◌else◌,
}

-- `NodeRequest`, but for its selections: the node that is called is an argument of its own, and
-- source is that of the first selection.
pub record NodeRequest (N : Type 0) : Type 0 where
  pub new : Bool
  pub source : N
  pub edit_root : Bool

-- A callback: the error that it returns, if one, and what it makes of the state.
abbrev pub Callback : Type 0 → Type 0 → Type 0
Callback W E = W → Option E × W

-- The callbacks of a trigger, nil or not, and the methods of a node. `remove_item` is Next and
-- `remove_child` Child with Delete set.
pub record Callbacks (N T W E : Type 0) : Type 0 where
  pub on_begin : T → Option (NodeRequest N → Callback W E)
  pub on_end : T → Option (NodeRequest N → Callback W E)
  pub begin_edit : N → NodeRequest N → Callback W E
  pub end_edit : N → NodeRequest N → Callback W E
  pub delete : N → Callback W E
  pub remove_item : N → N → Callback W E
  pub remove_child : N → N → Callback W E
  pub is_nil : E

-- `if err := c(); err != nil { return err }` in front of d
abbrev pub before : {W E : Type 0} → Option E × W → Callback W E → Option E × W
before (some e, w) d = (some e, w)
before (none, w) d = d w

infixl 5 ◌▸◌
abbrev pub ◌▸◌ : {W E : Type 0} → Callback W E → Callback W E → Callback W E
(c ▸ d) w = before (c w) d

abbrev pub skip : {W E : Type 0} → Callback W E
skip w = (none, w)

abbrev pub called :
    {N W E : Type 0} → Option (NodeRequest N → Callback W E) → NodeRequest N → Callback W E
called none r = skip
called (some f) r = f r

module _ {N T W E : Type 0} (cb : Callbacks N T W E) where
  -- `TriggerTable.handle`, on the triggers in the order in which they were installed.
  unfoldable pub handle : Bool → NodeRequest N → List T → Callback W E
  handle begin r [] = skip
  handle begin r (t ∷ ts) =
      called (if begin then cb.on_begin t else cb.on_end t) r ▸ handle begin r ts

  -- `TriggerTable.beginEdit` and `TriggerTable.endEdit`
  unfoldable pub trigger_begin_edit : NodeRequest N → List T → Callback W E
  unfolding handle
  trigger_begin_edit r [] = skip
  trigger_begin_edit r (t ∷ ts) = handle true r (t ∷ ts)

  unfoldable pub trigger_end_edit : NodeRequest N → List T → Callback W E
  unfolding handle
  trigger_end_edit r [] = skip
  trigger_end_edit r (t ∷ ts) = handle false r (t ∷ ts)

  -- The loops of `beginEdit` and `endEdit`, on a node and those of its parents, the nearest first.
  unfoldable pub begin_from : Bool → NodeRequest N → N → List N → Callback W E
  begin_from bubble r n [] = cb.begin_edit n r
  begin_from bubble r n (p ∷ ps) =
      cb.begin_edit n r
      ▸ (if bubble then begin_from bubble (record r { edit_root = false }) p ps else skip)

  unfoldable pub end_from : Bool → NodeRequest N → N → List N → Callback W E
  end_from bubble r n [] = cb.end_edit n r
  end_from bubble r n (p ∷ ps) =
      cb.end_edit n r
      ▸ (if bubble then end_from bubble (record r { edit_root = false }) p ps else skip)

  -- `beginEdit` on a selection, that is its node and those of its parents; the empty list is the nil
  -- selection.
  unfoldable pub begin_edit_of : List T → NodeRequest N → Bool → List N → Callback W E
  unfolding trigger_begin_edit begin_from
  begin_edit_of ts r bubble [] = λ w. (some cb.is_nil, w)
  begin_edit_of ts r bubble (n ∷ ps) = trigger_begin_edit r ts ▸ begin_from bubble r n ps

  -- `endEdit`
  unfoldable pub end_edit_of : List T → NodeRequest N → Bool → N → List N → Callback W E
  unfolding trigger_end_edit end_from
  end_edit_of ts r bubble n ps = end_from bubble r n ps ▸ trigger_end_edit r ts

  -- What Delete asks the parent for.
  unfoldable pub remove_from_parent : Bool → N → N → Callback W E
  remove_from_parent inside_list p n =
      if inside_list then cb.remove_item p n else cb.remove_child p n

  -- `Delete`, of a node with a parent; it panics on one with none. The error of Node.Delete is
  -- dropped.
  unfoldable pub delete_of : List T → Bool → N → N → List N → Callback W E
  unfolding begin_edit_of remove_from_parent end_edit_of
  delete_of ts inside_list n p ps w =
      let r : NodeRequest N = record { new = false; source = n; edit_root = false } in
      (begin_edit_of ts r true (n ∷ p ∷ ps)
          ▸ remove_from_parent inside_list p n
          ▸ end_edit_of ts r true n (p ∷ ps))
        (cb.delete n w).1
