-- ===== src/Node/Values/Formats.antt =====
-- node/value.go: the formats of the values that `NewValue` makes.
use c2g.Common.{
  ◌≡◌, refl, sym, ◌∙◌, ◌⊎◌, inl, inr, List, [], ◌∷◌, Option, none, some, Result, ok, err, arith,
}
use mathlib.Core.List.{Mem, mem-cons_self, mem-cons_of_mem}
use mathlib.Core.Path.{subst}
use c2g.Val.Dyn.{Dyn, nil, Floats, ConvError}
use c2g.Val.Format.{Format, scalar, list_of, fmt_identity_ref, fmt_enum, fmt_union}
use c2g.Val.Value.{Value, format}
use c2g.Val.Conv.{conv, conv_one_of}
use c2g.Val.Conv.Formats.{conv-format}
use c2g.Val.Conv.First.{IsFirst, conv_one_of-IsFirst}
use c2g.Node.Values.{
  LeafType, Outcome, as_value, converted, value_of_union, to_ident_ref, to_ident_ref_list, to_enum,
  to_enum_list, value_of, new_value,
}

module _ {F : Type 0} (lib : Floats F) where
  converted-ok :
      (r : Result ConvError (Option (Value F))) (x : Value F)
      → converted r ≡ some (ok (some x))
      → r ≡ ok (some x)
  converted-ok (ok y) x e = ground arith
  converted-ok (err y) x e = ground arith

  as_value-made :
      {A : Type 0} (c : A → Value F) (o : Outcome A) (x : Value F)
      → as_value c o ≡ some (ok (some x))
      → (a : A) × (c a ≡ x)
  as_value-made c none x e = ground arith
  as_value-made c (some (err y)) x e = ground arith
  as_value-made c (some (ok a)) x e = (a, ground arith)

  as_value-format :
      {A : Type 0} (c : A → Value F) (f : Format) (o : Outcome A) (x : Value F)
      → ((a : A) → format (c a) ≡ f)
      → as_value c o ≡ some (ok (some x))
      → format x ≡ f
  as_value-format c f o x h e =
      let (a, made) = as_value-made c o x e in subst (λ y. format y ≡ f) made (h a)

  IsFirst-format :
      (fs : List Format) (v : Dyn F) (x : Value F) (f : Format)
      → IsFirst lib v fs (some x) f
      → Mem (format x) fs
  IsFirst-format [] v x f h = absurd h
  IsFirst-format (g ∷ fs) v x f (inl (same, q)) =
      rw (conv-format lib f v x q ∙ sym same) mem-cons_self
  IsFirst-format (g ∷ fs) v x f (inr (_, h)) = mem-cons_of_mem g (IsFirst-format fs v x f h)

  union-format :
      (fs : List Format) (v : Dyn F) (x : Value F)
      (r : Result ConvError (Option (Value F) × Format))
      → conv_one_of lib fs v ≡ r
      → value_of_union r ≡ some (ok (some x))
      → Mem (format x) fs
  union-format fs v x (err y) q e = ground arith
  union-format fs v x (ok (y, f)) q e =
      let same : y ≡ some x = ground arith in
      IsFirst-format fs v x f (conv_one_of-IsFirst lib v fs (some x) f (rw (← same) q))

  value_of-format :
      (f : Format) (typ : LeafType) (v : Dyn F) (x : Value F)
      → value_of lib f typ v ≡ some (ok (some x))
      → (format x ≡ f) ⊎ ((f ≡ scalar fmt_union) × Mem (format x) typ.union_formats)
  unfolding value_of format
  value_of-format (scalar fmt_identity_ref) typ v x e =
      inl (as_value-format Value.ident_ref _ (to_ident_ref lib typ.base v) x (λ a. refl) e)
  value_of-format (list_of fmt_identity_ref) typ v x e =
      inl
        (as_value-format Value.ident_ref_list _ (to_ident_ref_list lib typ.base v) x (λ a. refl) e)
  value_of-format (scalar fmt_enum) typ v x e =
      inl (as_value-format Value.enum _ (to_enum lib typ.enum v) x (λ a. refl) e)
  value_of-format (list_of fmt_enum) typ v x e =
      inl (as_value-format Value.enum_list _ (to_enum_list lib typ.enum v) x (λ a. refl) e)
  value_of-format (scalar fmt_union) typ v x e =
      inr (refl, union-format typ.union_formats v x (conv_one_of lib typ.union_formats v) refl e)
  value_of-format f typ v x e = inl (conv-format lib f v x (converted-ok (conv lib f v) x e))

  -- Whatever value `NewValue` returns with no error has the format of the type, or that of a member
  -- of the union.
  pub new_value-format :
      (typ : LeafType) (v : Dyn F) (x : Value F)
      → new_value lib typ v ≡ some (ok (some x))
      → (format x ≡ typ.format)
        ⊎ ((typ.format ≡ scalar fmt_union) × Mem (format x) typ.union_formats)
  unfolding new_value
  new_value-format typ nil x e = ground arith
  new_value-format typ v x e = value_of-format typ.format typ v x e
