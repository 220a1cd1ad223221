-- ===== src/Node/Callbacks/Order.antt =====
-- node/selection.go: the order in which an edit calls the triggers and the nodes.
use c2g.Common.{
  ◌≡◌, refl, sym, ap, ◌∙◌, List, [], ◌∷◌, ◌++◌, Bool, true, false, Option, none, some, map,
  if◌then◌else◌,
}
use c2g.Node.Callbacks.{
  NodeRequest, Callback, Callbacks, before, ◌▸◌, skip, called, handle, trigger_begin_edit,
  trigger_end_edit, begin_from, end_from, begin_edit_of, end_edit_of, delete_of,
}

-- Callbacks one after the other, up to the first that returns an error.
abbrev pub in_turn : {W E : Type 0} → List (Callback W E) → Callback W E
in_turn [] = skip
in_turn (c ∷ cs) = c ▸ in_turn cs

before-skip : {W E : Type 0} (x : Option E × W) → before x skip ≡ x
before-skip (none, w) = refl
before-skip (some e, w) = refl

before_assoc :
    {W E : Type 0} (x : Option E × W) (c d : Callback W E)
    → before (before x c) d ≡ before x (c ▸ d)
before_assoc (none, w) c d = refl
before_assoc (some e, w) c d = refl

in_turn-append :
    {W E : Type 0} (cs ds : List (Callback W E)) → in_turn (cs ++ ds) ≡ (in_turn cs ▸ in_turn ds)
in_turn-append [] ds = refl
in_turn-append (c ∷ cs) ds =
    ap (λ d. c ▸ d) (in_turn-append cs ds)
    ∙ sym (λ i w. before_assoc (c w) (in_turn cs) (in_turn ds) i)

module _ {N T W E : Type 0} (cb : Callbacks N T W E) where
  -- The nodes that an edit tells: the one edited, which is told whether it is the root of the edit,
  -- and where the edit bubbles its parents, the nearest first, as no root.
  abbrev pub bubbled :
      (N → NodeRequest N → Callback W E) → Bool → NodeRequest N → N → List N → List (Callback W E)
  bubbled f bubble r n ps =
      f n r ∷ (if bubble then map (λ p. f p (record r { edit_root = false })) ps else [])

  abbrev pub begin_triggers : NodeRequest N → List T → List (Callback W E)
  begin_triggers r ts = map (λ t. called (cb.on_begin t) r) ts

  abbrev pub end_triggers : NodeRequest N → List T → List (Callback W E)
  end_triggers r ts = map (λ t. called (cb.on_end t) r) ts

  handle-begin :
      (r : NodeRequest N) (ts : List T) → handle cb true r ts ≡ in_turn (begin_triggers r ts)
  unfolding handle
  handle-begin r [] = refl
  handle-begin r (t ∷ ts) = ap (λ d. called (cb.on_begin t) r ▸ d) (handle-begin r ts)

  handle-end :
      (r : NodeRequest N) (ts : List T) → handle cb false r ts ≡ in_turn (end_triggers r ts)
  unfolding handle
  handle-end r [] = refl
  handle-end r (t ∷ ts) = ap (λ d. called (cb.on_end t) r ▸ d) (handle-end r ts)

  begin_from-bubbled :
      (b : Bool) (r : NodeRequest N) (n : N) (ps : List N)
      → begin_from cb b r n ps ≡ in_turn (bubbled cb.begin_edit b r n ps)
  unfolding begin_from
  begin_from-bubbled true r n [] = sym (λ i w. before-skip (cb.begin_edit n r w) i)
  begin_from-bubbled false r n [] = sym (λ i w. before-skip (cb.begin_edit n r w) i)
  begin_from-bubbled true r n (p ∷ ps) =
      ap (λ d. cb.begin_edit n r ▸ d)
        (begin_from-bubbled true (record r { edit_root = false }) p ps)
  begin_from-bubbled false r n (p ∷ ps) = refl

  end_from-bubbled :
      (b : Bool) (r : NodeRequest N) (n : N) (ps : List N)
      → end_from cb b r n ps ≡ in_turn (bubbled cb.end_edit b r n ps)
  unfolding end_from
  end_from-bubbled true r n [] = sym (λ i w. before-skip (cb.end_edit n r w) i)
  end_from-bubbled false r n [] = sym (λ i w. before-skip (cb.end_edit n r w) i)
  end_from-bubbled true r n (p ∷ ps) =
      ap (λ d. cb.end_edit n r ▸ d) (end_from-bubbled true (record r { edit_root = false }) p ps)
  end_from-bubbled false r n (p ∷ ps) = refl

  triggers-begin :
      (r : NodeRequest N) (ts : List T) → trigger_begin_edit cb r ts ≡ in_turn (begin_triggers r ts)
  unfolding trigger_begin_edit
  triggers-begin r [] = refl
  triggers-begin r (t ∷ ts) = handle-begin r (t ∷ ts)

  triggers-end :
      (r : NodeRequest N) (ts : List T) → trigger_end_edit cb r ts ≡ in_turn (end_triggers r ts)
  unfolding trigger_end_edit
  triggers-end r [] = refl
  triggers-end r (t ∷ ts) = handle-end r (t ∷ ts)

  -- The begin of an edit calls the triggers in the order in which they were installed, then the node,
  -- then (where it bubbles) its parents from the nearest to the farthest, which are told that they
  -- are not the root of the edit; the end calls the nodes in the same order and the triggers behind
  -- them. The first error ends the calls and is the result.
  pub edits-in_turn :
      (ts : List T) (r : NodeRequest N) (b : Bool) (n : N) (ps : List N)
      → (begin_edit_of cb ts r b (n ∷ ps)
          ≡ in_turn (begin_triggers r ts ++ bubbled cb.begin_edit b r n ps))
        × (end_edit_of cb ts r b n ps ≡ in_turn (bubbled cb.end_edit b r n ps ++ end_triggers r ts))
  unfolding begin_edit_of end_edit_of
  edits-in_turn ts r b n ps = (
    (λ i. triggers-begin r ts i ▸ begin_from-bubbled b r n ps i)
        ∙ sym (in_turn-append (begin_triggers r ts) (bubbled cb.begin_edit b r n ps)),
    (λ i. end_from-bubbled b r n ps i ▸ triggers-end r ts i)
        ∙ sym (in_turn-append (bubbled cb.end_edit b r n ps) (end_triggers r ts)),
  )

  -- Whatever error Node.Delete returns, Delete does the same and returns the same: the error of a
  -- node that refuses to be deleted is lost.
  pub delete_of-error_lost :
      (f : N → W → Option E) (ts : List T) (inside_list : Bool) (n p : N) (ps : List N)
      → delete_of (record cb { delete = λ m w. (f m w, (cb.delete m w).1) }) ts inside_list n p ps
        ≡ delete_of cb ts inside_list n p ps
  unfolding delete_of
  delete_of-error_lost f ts inside_list n p ps = refl
