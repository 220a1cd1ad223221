-- ===== src/Val/Conv/First.antt =====
-- val/conv.go: which of its formats `ConvOneOf` takes.
use c2g.Common.{◌≡◌, refl, List, [], ◌∷◌, Option, Result, ok, err, ◌⊎◌, inl, inr}
use c2g.Val.Dyn.{Dyn, Floats, ConvError}
use c2g.Val.Format.{Format}
use c2g.Val.Value.{Value}
use c2g.Val.Conv.{conv, conv_one_of}

-- An error.
abbrev pub IsRefused {ℓ} : {A : Type ℓ} → Result ConvError A → Type 0
IsRefused (ok x) = ⊥
IsRefused (err e) = Unit

-- `f` stands in the list, gives `x`, and every format before it is refused.
abbrev pub IsFirst :
    {F : Type 0} → Floats F → Dyn F → List Format → Option (Value F) → Format → Type 0
IsFirst lib v [] x f = ⊥
IsFirst lib v (g ∷ fs) x f =
    ((g ≡ f) × (conv lib f v ≡ ok x)) ⊎ (IsRefused (conv lib g v) × IsFirst lib v fs x f)

module _ {F : Type 0} (lib : Floats F) (v : Dyn F) where
  IsFirst-of :
      (g : Format) (fs : List Format) (x : Option (Value F)) (f : Format)
      (r : Result ConvError (Option (Value F)))
      → conv lib g v ≡ r
      → (conv_one_of lib fs v ≡ ok (x, f) → IsFirst lib v fs x f)
      → ◌≡◌ {A = Result ConvError (Option (Value F) × Format)}
          (elim r [ ok y ↦ ok (y, g) | err e ↦ conv_one_of lib fs v ])
          (ok (x, f))
      → IsFirst lib v (g ∷ fs) x f
  IsFirst-of g fs x f (ok y) q k h =
      let same : g ≡ f = cc in let value : y ≡ x = cc in inl (same, rw (← same) (rw (← value) q))
  IsFirst-of g fs x f (err e) q k h = inr (rw q tt, k h)

  -- Where `ConvOneOf` returns a value and a format, the format is the first of the list that `Conv`
  -- does not refuse, and the value is what `Conv` makes of it.
  pub conv_one_of-IsFirst :
      (fs : List Format) (x : Option (Value F)) (f : Format)
      → conv_one_of lib fs v ≡ ok (x, f)
      → IsFirst lib v fs x f
  unfolding conv_one_of
  conv_one_of-IsFirst [] x f h = cc
  conv_one_of-IsFirst (g ∷ fs) x f h =
      IsFirst-of g fs x f (conv lib g v) refl (conv_one_of-IsFirst fs x f) h
