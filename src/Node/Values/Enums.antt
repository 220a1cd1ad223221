-- ===== src/Node/Values/Enums.antt =====
-- node/value.go: the values of enumerations.
use c2g.Common.{
  ◌≡◌, ◌≢◌, refl, sym, ap, ◌∙◌, List, [], ◌∷◌, Bytes, Option, none, some, ok, err, All, bytes_eq,
  bytes_eq_refl, bytes_eq_iff, Bool-cases, inl, inr,
}
use mathlib.Core.List.{Mem, not-mem-nil, eq-or-mem_of_mem-cons}
use mathlib.Core.Logic.Or
use mathlib.Core.Path.{subst}
use c2g.Val.Dyn.{string, strings, Floats}
use c2g.Val.Format.{Format, list_of, fmt_enum}
use c2g.Val.Strconv.{parse_int}
use c2g.Val.Value.{Value, Enum}
use c2g.Val.Value.Enums.{by_label, labels}
use c2g.Val.Conv.{conv, conv_to}
use c2g.Val.Conv.Scalars.{to_int32, to_string}
use c2g.Node.Values.{
  LeafType, no_enum_list, enum_found, empty_enum, inverted, as_value, value_of, to_enum_list,
  single_enum, each, to_enum, new_value,
}

-- No label is a number, and no two are the same.
abbrev pub HasLabels : List Enum → Type 0
HasLabels [] = Unit {0}
HasLabels (e ∷ es) = (parse_int e.label ≡ none) × (by_label e.label es ≡ none) × HasLabels es

-- The enum is found under its label, which is no number.
abbrev IsLabelled : List Enum → Enum → Type 0
IsLabelled src e = (parse_int e.label ≡ none) × (by_label e.label src ≡ some e)

none_ne_some : {e : Enum} → ◌≢◌ {A = Option Enum} none (some e)
none_ne_some e = cc

Labelled-prop : (src : List Enum) (e : Enum) → IsProp (IsLabelled src e)
Labelled-prop src e = hlevel

Mem-IsLabelled : (src : List Enum) (e : Enum) → HasLabels src → Mem e src → IsLabelled src e
unfolding by_label
Mem-IsLabelled [] e h m = absurd (not-mem-nil m)
Mem-IsLabelled (x ∷ src) e h m =
    Or.elim (Labelled-prop (x ∷ src) e) (eq-or-mem_of_mem-cons m)
      (λ q. subst (IsLabelled (x ∷ src)) (sym q) (h.0, rw (bytes_eq_refl x.label) refl))
      (λ n. behind (Mem-IsLabelled src e h.2 n))
  where
    behind : IsLabelled src e → IsLabelled (x ∷ src) e
    behind (number, found) = elim (Bool-cases (bytes_eq x.label e.label)) [
      | inr q ↦ (number, rw q found)
      | inl q ↦
          let missing : by_label e.label src ≡ none =
            ap (λ l. by_label l src) (sym ((bytes_eq_iff x.label e.label).0 q)) ∙ h.1 in
          absurd (none_ne_some (sym missing ∙ found))
    ]

All-IsLabelled :
    (src es : List Enum) → HasLabels src → All (λ e. Mem e src) es → All (IsLabelled src) es
All-IsLabelled src [] h m = tt
All-IsLabelled src (e ∷ es) h m = (Mem-IsLabelled src e h m.0, All-IsLabelled src es h m.1)

module _ {F : Type 0} (lib : Floats F) where
  to_enum-label :
      (src : List Enum) (s : Bytes)
      → parse_int s ≡ none
      → to_enum lib src (string s) ≡ enum_found (by_label s src)
  unfolding to_enum conv conv_to to_int32 to_string
  to_enum-label src s h = rw (h, to_enum) refl

  each-labels :
      (src es : List Enum)
      → All (IsLabelled src) es
      → each (λ s. to_enum lib src (string s)) (labels es) ≡ some (ok es)
  unfolding labels
  each-labels src [] h = refl
  each-labels src (e ∷ es) h =
      rw (to_enum-label src e.label h.0.0, h.0.1, each-labels src es h.1) refl

  -- For a type of lists of enums whose labels are different and no numbers, the labels of any enums of
  -- the type, in any order and as often as they come, are read back as the list of these enums.
  pub new_value-labels :
      (typ : LeafType) (es : List Enum)
      → typ.format ≡ list_of fmt_enum
      → HasLabels typ.enum
      → All (λ e. Mem e typ.enum) es
      → new_value lib typ (strings (labels es)) ≡ some (ok (some (Value.enum_list es)))
  unfolding new_value
  new_value-labels typ es f h m =
      rw (f, each-labels typ.enum es (All-IsLabelled typ.enum es h m)) refl

  -- For a list of enums, a single text that is no number is refused where it is a label of the type,
  -- and where it is none, it gives a list of one empty enum.
  pub new_value-single_label :
      (typ : LeafType) (s : Bytes)
      → typ.format ≡ list_of fmt_enum
      → parse_int s ≡ none
      → new_value lib typ (string s) ≡ elim (by_label s typ.enum) [
        | some e ↦ some (err no_enum_list)
        | none ↦ some (ok (some (Value.enum_list (empty_enum ∷ []))))
      ]
  unfolding new_value value_of to_enum_list single_enum
  new_value-single_label typ s f h =
      at_format typ.format f ∙ rw (to_enum-label typ.enum s h) (by_found (by_label s typ.enum))
    where
      at_format :
          (g : Format)
          → g ≡ list_of fmt_enum
          → value_of lib g typ (string s)
            ≡ as_value {F = F} Value.enum_list (inverted (to_enum lib typ.enum (string s)))
      at_format g e = rw e refl

      by_found :
          (o : Option Enum)
          → as_value {F = F} Value.enum_list (inverted (enum_found o)) ≡ elim o [
            | some e ↦ some (err no_enum_list)
            | none ↦ some (ok (some (Value.enum_list (empty_enum ∷ []))))
          ]
      by_found none = refl
      by_found (some e) = refl
