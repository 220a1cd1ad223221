-- ===== src/Meta/Compile/Tests.antt =====
-- Config and enums of concrete definitions.
use c2g.Common.{◌≡◌, refl, [], ◌∷◌, codes, true, false, none, some}
use c2g.Common.Int.{ℤ, pos, negsuc, wrap_signed, wrap_unsigned}
use c2g.Meta.Compile.{
  details, plain, Tree, tree, last, next, inherit_config, set_config, compile, EnumItem,
  enum_values,
}
use c2g.Meta.Compile.Config.{configured, inherited, compile-configured}

-- A container of state data, with a leaf, and a choice whose case has a leaf.
abbrev state : Tree
state = tree (details (some false)) (
    next (tree (details none) last) (
      next (tree (details none) (next (tree plain (next (tree (details none) last) last)) last))
        last))

-- The leaf in the case is config, although the container is not.
abbrev compiled : Tree
compiled = tree (details (some false)) (
    next (tree (details (some false)) last) (
      next
        (tree (details (some false))
          (next (tree plain (next (tree (details (some true)) last) last)) last))
        last))

compile_runs : (compile state (plain ∷ [])).0 ≡ compiled
unfolding compile set_config inherit_config
compile_runs = refl

compile-configured_example :
    (compile state (plain ∷ [])).0 ≡ configured (inherited (plain ∷ [])) state
compile-configured_example = compile-configured state (plain ∷ [])

abbrev item : ℤ → EnumItem
item v = record { ident = codes "e"; val = v }

-- The last is to be 6, one more than the highest.
after_lower :
    enum_values (pos 0) (item (pos 5) ∷ item (pos 2) ∷ item (pos 0) ∷ [])
    ≡ pos 5 ∷ pos 2 ∷ pos 3 ∷ []
unfolding enum_values wrap_signed wrap_unsigned
after_lower = refl

-- A negative value is lost, and so is a 0 behind another.
negative_lost : enum_values (pos 0) (item (pos 1) ∷ item (negsuc 0) ∷ []) ≡ pos 1 ∷ pos 2 ∷ []
unfolding enum_values wrap_signed wrap_unsigned
negative_lost = refl
