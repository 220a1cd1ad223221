-- ===== src/Node/Edit/Editor.antt =====
-- node/edit.go: the methods of the editor.
use c2g.Common.{
  ℕ, zero, suc, ◌+◌, List, Bytes, bytes_eq, Bool, true, false, ◌||◌, Option, none, some,
  if◌then◌else◌,
}
use c2g.Meta.Defs.{
  Def, Defs, Cases, leaf, container, list, choice, nil, more, case_of, no_cases, one_of, ident_of,
}
use c2g.Node.Choices.{Iter, case_defs, new_iter, next_meta}
use c2g.Node.Choices.Flatten.{cost}
use c2g.Node.Edit.{
  Strategy, upsert, insert, update, other, selection, conflict, not_found, no_container, no_item,
  not_implemented, out_of_fuel, Call, ◌>>=◌, ◌>>◌, return, fail, Rows, done, failed, row,
  Selections, Home, lift, run_iter, reading, has_any, sought,
}

-- `(strategy != editUpdate && new) || self.useDefault`
abbrev pub use_default : Bool → Strategy → Bool → Bool
use_default u update new = u
use_default u _ new = new || u

module _ (S : Selections) where
  abbrev pub Run : Type 0
  Run = Call S.World S.Error (Unit {0})

  -- The body of the loop of `clearChoiceCase`.
  unfoldable pub clear_def : S.To → Def → Run
  clear_def sel (leaf x) = S.clear_field sel x
  clear_def sel m = sought (S.find sel (ident_of m)) >>= λ sub. elim sub [
    | none ↦ return tt
    | some t ↦ S.delete t
  ]

  -- The loop of `clearChoiceCase`, by a bound on its rounds. The iterator looks ahead before the
  -- definition in hand is cleared.
  unfoldable pub clear_from : ℕ → ℕ → S.To → Iter → Run
  unfolding clear_def
  clear_from n zero sel i = fail out_of_fuel
  clear_from n (suc turns) sel i =
      reading (λ w. run_iter (next_meta (S.choose_to sel w) n i)) >>= λ mi. elim mi.0 [
        | none ↦ return tt
        | some m ↦ clear_def sel m >> clear_from n turns sel mi.1
      ]

  -- `clearChoiceCase`
  unfoldable pub clear_choice_case : S.To → Defs → Run
  unfolding clear_from
  clear_choice_case sel ds =
      reading (λ w. run_iter (new_iter (S.choose_to sel w) (cost ds + 2) ds))
      >>= clear_from (cost ds + 2) (cost ds + 2) sel

  -- `clearOnDifferentChoiceCase` behind its call of Choose, whose error it drops.
  unfoldable pub clear_chosen : S.To → Cases → Bytes → Option (Option Bytes) → Run
  unfolding clear_choice_case
  clear_chosen existing cs want none = return tt
  clear_chosen existing cs want (some none) = return tt
  clear_chosen existing cs want (some (some k)) =
      if bytes_eq k want then return tt else clear_choice_case existing (case_defs k cs)

  -- `clearOnDifferentChoiceCase`
  unfoldable pub clear_on_different : S.To → Home → Run
  unfolding clear_chosen
  clear_on_different existing none = return tt
  clear_on_different existing (some ((x, cs), want)) =
      reading (λ w. clear_chosen existing cs want (S.choose_to existing w x cs))

  -- `if strategy == editUpsert { … }`
  unfoldable pub clears : Strategy → S.To → Home → Run
  unfolding clear_on_different
  clears upsert to home = clear_on_different to home
  clears _ to home = return tt

  -- `leaf`
  unfoldable pub edit_leaf : Bool → Strategy → Bool → Home → Bytes → S.From → S.To → Run
  unfolding clears
  edit_leaf u s new home x from to = lift (S.get_value from x (use_default u s new)) >>= λ v.
      elim v [ none ↦ return tt | some y ↦ clears s to home >> S.set_value to x y ]

  -- The switch of `node`: the child in the destination, and whether it is new.
  unfoldable pub place_child :
      Strategy → Home → Def → S.To → Option S.To → Call S.World S.Error (Option S.To × Bool)
  unfolding clear_on_different
  place_child insert home m to (some t) = fail conflict
  place_child insert home m to none = S.to_child to m true >>= λ t. return (t, true)
  place_child upsert home m to (some t) = clear_on_different to home >> return (some t, false)
  place_child upsert home m to none =
      clear_on_different to home >> (S.to_child to m true >>= λ t. return (t, true))
  place_child update home m to (some t) = return (some t, false)
  place_child update home m to none = fail not_found
  place_child other home m to o = fail not_implemented

  -- `node`, where `go` is the call of `enter`.
  unfoldable pub edit_node :
      (Strategy → Bool → S.From → S.To → Run) → Strategy → Home → Def → S.From → S.To → Run
  unfolding place_child
  edit_node go s home m from to = lift (S.from_child from m) >>= λ f. elim f [
    | none ↦ return tt
    | some from_child ↦ S.to_child to m false >>= place_child s home m to >>= λ tn. elim tn.0 [
      | none ↦ fail no_container
      | some to_child ↦ go s tn.1 from_child to_child
    ]
  ]

  -- The switch of `list`.
  unfoldable pub place_item :
      Strategy → List S.Key → ℕ → S.To → Option S.To → Call S.World S.Error (Option S.To × Bool)
  place_item update key r to (some t) = return (some t, false)
  place_item update key r to none = fail not_found
  place_item upsert key r to (some t) = return (some t, false)
  place_item upsert key r to none = S.to_item to key r true >>= λ t. return (t, true)
  place_item insert key r to (some t) = fail conflict
  place_item insert key r to none = S.to_item to key r true >>= λ t. return (t, true)
  place_item other key r to o = fail not_implemented

  -- The loop of `list`: every item is entered with editUpsert.
  unfoldable pub edit_rows :
      (Strategy → Bool → S.From → S.To → Run)
      → Strategy
      → ℕ
      → Rows S.From S.Key S.Error
      → S.To
      → Run
  unfolding place_item
  edit_rows go s r done to = return tt
  edit_rows go s r (failed e) to = fail (selection e)
  edit_rows go s r (row from key rest) to =
      (if has_any key then S.to_item to key r false else return none)
      >>= place_item s key r to
      >>= (λ tn. elim tn.0 [ none ↦ fail no_item | some to_item ↦ go upsert tn.1 from to_item ])
      >> edit_rows go s (r + 1) rest to

  -- The frame of `enter`.
  unfoldable pub framed : Bool → Bool → Bool → S.To → Run → Run
  framed new root bubble to body =
      S.begin_edit to new root bubble >> body >> S.end_edit to new root bubble

  -- `enter`, with the loop over the definitions that the source shows (each choice replaced by the
  -- chosen case, which is what the iterator visits). The loop is `edit_defs`, `edit_def` its body
  -- and `edit_case` the part of the loop inside a case.
  unfoldable mutual
    unfolding edit_leaf edit_node edit_rows framed

    pub edit_defs : Bool → Strategy → Bool → Home → Defs → S.From → S.To → Run
    edit_defs u s new home nil from to = return tt
    edit_defs u s new home (more d ds) from to =
        edit_def u s new home d from to >> edit_defs u s new home ds from to

    pub edit_def : Bool → Strategy → Bool → Home → Def → S.From → S.To → Run
    edit_def u s new home (leaf x) from to = edit_leaf u s new home x from to
    edit_def u s new home (container x ds) from to =
        edit_node (λ s' new' f t. framed new' false false t (edit_defs u s' new' none ds f t)) s
          home (container x ds) from to
    edit_def u s new home (list x ds) from to =
        edit_node
          (λ s' new' f t. framed new' false false t (
            edit_rows
              (λ s'' new'' f' t'. framed new'' false false t' (edit_defs u s'' new'' none ds f' t'))
              s' 0 (S.rows f) t))
          s home (list x ds) from to
    edit_def u s new home (choice x cs) from to = elim (S.choose_from from x cs) [
      | none ↦ return tt
      | some k ↦ edit_case u s new (some ((x, cs), k)) k cs from to
    ]

    pub edit_case : Bool → Strategy → Bool → Home → Bytes → Cases → S.From → S.To → Run
    edit_case u s new home k no_cases from to = return tt
    edit_case u s new home k (one_of (case_of x ds) cs) from to =
        if bytes_eq x k
        then edit_defs u s new home ds from to
        else edit_case u s new home k cs from to

  -- `edit`, from a container or an item of a list.
  unfoldable pub edit : Bool → Strategy → Defs → S.From → S.To → Run
  unfolding edit_defs framed
  edit u s ds from to = framed false true true to (edit_defs u s false none ds from to)

  -- `edit`, from a list.
  unfoldable pub edit_list : Bool → Strategy → Defs → S.From → S.To → Run
  unfolding edit_defs edit_rows framed
  edit_list u s ds from to = framed false true true to (
      edit_rows (λ s' new f t. framed new false false t (edit_defs u s' new none ds f t)) s 0
        (S.rows from) to)
