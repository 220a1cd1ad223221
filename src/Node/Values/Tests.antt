-- ===== src/Node/Values/Tests.antt =====
-- node/value.go on concrete values.
use c2g.Common.{◌≡◌, ◌⊎◌, ◌↔◌, refl, Bool, [], ◌∷◌, codes, bytes_eq, some, ok}
use mathlib.Core.List.{Mem, mem-cons_self, mem-cons_of_mem}
use c2g.Common.Int.{pos}
use c2g.Val.Dyn.{string, strings}
use c2g.Val.Format.{scalar, list_of, fmt_enum, fmt_union, fmt_string}
use c2g.Val.Strconv.{parse_int}
use c2g.Val.Value.{Value, Enum, format}
use c2g.Val.Value.Enums.{by_label, labels}
use c2g.Val.Samples.{bits}
use c2g.Val.Conv.{conv}
use c2g.Val.Conv.Scalars as Scalars
use c2g.Node.Values.{sprint, Identity, identity, last, next, LeafType, new_value, to_ident_ref}
use c2g.Node.Values.Formats.{new_value-format}
use c2g.Node.Values.Derived.{Names, to_ident_ref-Names}
use c2g.Node.Values.Enums.{HasLabels, new_value-labels}

abbrev red : Enum
red = record { id = pos 0; label = codes "red" }

abbrev blue : Enum
blue = record { id = pos 1; label = codes "blue" }

-- `animal`, with `dog` derived from it.
abbrev animal : Identity
animal = identity (codes "animal") (next (identity (codes "dog") last) last)

abbrev colours : LeafType
colours = record {
  format = list_of fmt_enum;
  base = animal;
  enum = red ∷ blue ∷ [];
  union_formats = [];
}

abbrev texts : LeafType
texts = record { format = scalar fmt_string; base = animal; enum = []; union_formats = [] }

hello :
    new_value bits texts (string (codes "hello")) ≡ some (ok (some (Value.string (codes "hello"))))
unfolding new_value conv Scalars.to_string
hello = refl

new_value-format_example :
    (format {F = Bool} (Value.string (codes "hello")) ≡ texts.format)
    ⊎ ((texts.format ≡ scalar fmt_union)
        × Mem (format {F = Bool} (Value.string (codes "hello"))) texts.union_formats)
new_value-format_example =
    new_value-format bits texts (string (codes "hello")) (Value.string (codes "hello")) hello

to_ident_ref-Names_example :
    (to_ident_ref bits animal (string (codes "dog"))
      ≡ some (ok (record { base = codes "animal"; label = codes "dog" })))
    ↔ Names (codes "dog") animal
unfolding sprint Scalars.to_string
to_ident_ref-Names_example = to_ident_ref-Names bits animal (string (codes "dog"))

colours-HasLabels : HasLabels colours.enum
unfolding parse_int by_label bytes_eq
colours-HasLabels = (refl, refl, (refl, refl, tt))

new_value-labels_example :
    new_value bits colours (strings (labels (blue ∷ red ∷ [])))
    ≡ some (ok (some (Value.enum_list (blue ∷ red ∷ []))))
new_value-labels_example =
    new_value-labels bits colours (blue ∷ red ∷ []) refl colours-HasLabels
      (mem-cons_of_mem red mem-cons_self, (mem-cons_self, tt))
