-- ===== src/Val/Format/Laws.antt =====
-- The numbers and the names of formats.
use c2g.Common.{◌≡◌, refl, true, false, some, ◌≢◌}
use c2g.Val.Format.{
  Kind, fmt_empty, fmt_binary, scalar, list_of, number, to_single, is_list, type_as_format,
  to_string,
}

-- `Single` of a format, scalar or list, is the number of its scalar format, and `IsList` holds
-- of the number exactly when the format is a list.
pub number-single :
    (k : Kind)
    → (to_single (number (scalar k)) ≡ number (scalar k))
      × (to_single (number (list_of k)) ≡ number (scalar k))
      × (is_list (number (scalar k)) ≡ false)
      × (is_list (number (list_of k)) ≡ true)
unfolding to_single number is_list
number-single fmt_binary = (refl, refl, refl, refl)
number-single _ = (refl, refl, refl, refl)

-- A scalar format other than FmtEmpty is found again under its name; "empty" is no type name and
-- FmtEmpty has no name.
pub type_as_format-to_string :
    (k : Kind) → k ≢ fmt_empty → type_as_format (to_string (scalar k)) ≡ some (scalar k)
unfolding type_as_format to_string
type_as_format-to_string fmt_empty h = absurd (h refl)
type_as_format-to_string _ h = refl
