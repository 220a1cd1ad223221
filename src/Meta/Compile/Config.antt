-- ===== src/Meta/Compile/Config.antt =====
-- meta/compile.go: the config that definitions inherit.
use c2g.Common.{◌≡◌, refl, ap, ◌∙◌, List, [], ◌∷◌, Bool, true, none, some}
use c2g.Meta.Compile.{
  Level, details, plain, Tree, Trees, tree, last, next, inherit_config, set_config, compile,
  compile_each,
}

-- The config that holds below a definition, where it is `b` for the definition itself.
abbrev pub below : Bool → Level → Bool
below b plain = true
below b (details none) = b
below b (details (some c)) = c

abbrev pub with_config : Bool → Level → Level
with_config b plain = plain
with_config b (details none) = details (some b)
with_config b (details (some c)) = details (some c)

-- Every definition that can have config, with its own or that of its surroundings.
unfoldable mutual
  pub configured : Bool → Tree → Tree
  configured b (tree l ts) = tree (with_config b l) (configured_each (below b l) ts)

  pub configured_each : Bool → Trees → Trees
  configured_each b last = last
  configured_each b (next t ts) = next (configured b t) (configured_each b ts)

-- The config around a definition, by those of its parents, the nearest first.
abbrev pub inherited : List Level → Bool
inherited [] = true
inherited (p ∷ ps) = below (inherited ps) p

inherit_config-inherited : (ps : List Level) → (inherit_config ps).0 ≡ inherited ps
unfolding inherit_config
inherit_config-inherited [] = refl
inherit_config-inherited (plain ∷ ps) = refl
inherit_config-inherited (details (some b) ∷ ps) = refl
inherit_config-inherited (details none ∷ ps) = inherit_config-inherited ps

-- Setting the config of the parents does not change what is inherited.
inherit_config_again :
    (ps : List Level) → (inherit_config (inherit_config ps).1).0 ≡ (inherit_config ps).0
unfolding inherit_config
inherit_config_again [] = refl
inherit_config_again (plain ∷ ps) = refl
inherit_config_again (details (some b) ∷ ps) = refl
inherit_config_again (details none ∷ ps) = refl

set_config-level :
    (l : Level) (ps : List Level) → (set_config l ps).0 ≡ with_config (inherit_config ps).0 l
unfolding set_config
set_config-level plain ps = refl
set_config-level (details (some b)) ps = refl
set_config-level (details none) ps = refl

set_config-below :
    (l : Level) (ps : List Level)
    → (inherit_config ((set_config l ps).0 ∷ (set_config l ps).1)).0 ≡ below (inherit_config ps).0 l
unfolding set_config inherit_config
set_config-below plain ps = refl
set_config-below (details (some b)) ps = refl
set_config-below (details none) ps = refl

set_config-parents :
    (l : Level) (ps : List Level) → (inherit_config (set_config l ps).1).0 ≡ (inherit_config ps).0
unfolding set_config
set_config-parents plain ps = refl
set_config-parents (details (some b)) ps = refl
set_config-parents (details none) ps = inherit_config_again ps

mutual
  unfolding compile configured

  compile-inherits :
      (t : Tree) (ps : List Level)
      → ((compile t ps).0 ≡ configured (inherit_config ps).0 t)
        × ((inherit_config (compile t ps).1).0 ≡ (inherit_config ps).0)
  compile-inherits (tree l ts) ps =
      let s = set_config l ps in
      let c = compile_each-inherits ts (s.0 ∷ s.1) in
      (
        (λ i. tree (set_config-level l ps i) (c.0 i))
            ∙ ap (λ b. tree (with_config (inherit_config ps).0 l) (configured_each b ts))
                (set_config-below l ps),
        set_config-parents l ps,
      )

  compile_each-inherits :
      (ts : Trees) (ps : List Level)
      → ((compile_each ts ps).0 ≡ configured_each (inherit_config ps).0 ts)
        × ((inherit_config (compile_each ts ps).1).0 ≡ (inherit_config ps).0)
  compile_each-inherits last ps = (refl, refl)
  compile_each-inherits (next t ts) ps =
      let a = compile-inherits t ps in
      let c = compile_each-inherits ts (compile t ps).1 in
      (
        (λ i. next (a.0 i) (c.0 i))
            ∙ ap (λ b. next (configured (inherit_config ps).0 t) (configured_each b ts)) a.1,
        c.1 ∙ a.1,
      )

-- Compiling a definition sets the config of every definition in it that can have one and does not set
-- it: to that of the definition around it, and to true where that is one that cannot have config, as
-- a case of a choice, whatever stands around the choice.
pub compile-configured :
    (t : Tree) (ps : List Level) → (compile t ps).0 ≡ configured (inherited ps) t
compile-configured t ps =
    (compile-inherits t ps).0 ∙ ap (λ b. configured b t) (inherit_config-inherited ps)
