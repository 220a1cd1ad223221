-- ===== src/Meta/Compile.antt =====
-- meta/compile.go: the config of the definitions that do not set it, and the numbers of enums and the
-- positions of bits.
pub mod Config
mod Tests
use c2g.Common.{ℕ, ◌^◌, List, [], ◌∷◌, Bytes, Bool, true, false, Option, none, some, if◌then◌else◌}
use c2g.Common.Int.{ℤ, pos, negsuc, ◌-ℤ◌, ltb_ℤ, wrap_signed}

-- A definition by what it is for config: one of `HasDetails`, with its config or none, or another, as
-- a module, a case of a choice, an input, an output or a notification.
pub data Level : Type 0 where
  details : Option Bool → Level
  plain : Level

-- A definition and those that are compiled with it, in the order in which they are: `compile` passes
-- over the data definitions of a recursive one (`IsRecursive`), so they are none of them. The errors of
-- `compile` come from types, keys and paths, which are not modelled: this is a `compile` without one.
mutual
  pub data Tree : Type 0 where
    tree : Level → Trees → Tree

  pub data Trees : Type 0 where
    last : Trees
    next : Tree → Trees → Trees

-- `inheritConfig` on a parent and its parents, the nearest first: the config, and the parents, in
-- which it is set.
unfoldable pub inherit_config : List Level → Bool × List Level
inherit_config [] = (true, [])
inherit_config (plain ∷ ps) = (true, plain ∷ ps)
inherit_config (details (some b) ∷ ps) = (b, details (some b) ∷ ps)
inherit_config (details none ∷ ps) = let (b, ps') = inherit_config ps in (b, details (some b) ∷ ps')

-- `if x, ok := o.(HasConfig); ok { if !x.IsConfigSet() { … } }`: the definition and its parents.
unfoldable pub set_config : Level → List Level → Level × List Level
unfolding inherit_config
set_config plain ps = (plain, ps)
set_config (details (some b)) ps = (details (some b), ps)
set_config (details none) ps = let (b, ps') = inherit_config ps in (details (some b), ps')

-- `compile`, for config: a definition and then those it holds, with the parents behind it.
unfoldable mutual
  unfolding set_config

  pub compile : Tree → List Level → Tree × List Level
  compile (tree l ts) ps =
      let (l', ps') = set_config l ps in
      let (ts', ls) = compile_each ts (l' ∷ ps') in (tree l' ts', ps')

  pub compile_each : Trees → List Level → Trees × List Level
  compile_each last ps = (last, ps)
  compile_each (next t ts) ps =
      let (t', ps') = compile t ps in let (ts', ps'') = compile_each ts ps' in (next t' ts', ps'')

-- `Enum` by its fields ident and val; a value that is not given is 0.
pub record EnumItem : Type 0 where
  pub ident : Bytes
  pub val : ℤ

-- The loop over the enums of `compileType`: their values. It is the loop over the positions of bits
-- too.
unfoldable pub enum_values : ℤ → List EnumItem → List ℤ
enum_values next_id [] = []
enum_values next_id (item ∷ items) =
    let id = if ltb_ℤ (pos 0) item.val then item.val else next_id in
    id ∷ enum_values (wrap_signed (2 ^ 63) (id -ℤ negsuc 0)) items
