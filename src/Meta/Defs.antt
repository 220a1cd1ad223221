-- ===== src/Meta/Defs.antt =====
-- meta/core.go: the data definitions of a module as a tree.
use c2g.Common.{Bytes, Bool, true, false}

-- `Leaf` and `LeafList`, `Container`, `List`, `Choice` and `ChoiceCase`, by their names and what they
-- hold; `Defs` and `Cases` are slices of them.
mutual
  pub data Def : Type 0 where
    leaf : Bytes → Def
    container list : Bytes → Defs → Def
    choice : Bytes → Cases → Def

  pub data Defs : Type 0 where
    nil : Defs
    more : Def → Defs → Defs

  pub data ChoiceCase : Type 0 where
    case_of : Bytes → Defs → ChoiceCase

  pub data Cases : Type 0 where
    no_cases : Cases
    one_of : ChoiceCase → Cases → Cases

-- `Ident`
abbrev pub ident_of : Def → Bytes
ident_of (leaf x) = x
ident_of (container x ds) = x
ident_of (list x ds) = x
ident_of (choice x cs) = x

-- `_, isChoice := m.(*meta.Choice)`
abbrev pub is_choice : Def → Bool
is_choice (choice x cs) = true
is_choice _ = false
