-- ===== src/Val/Tests.antt =====
-- The package val on concrete inputs.
use c2g.Common.{◌≡◌, refl, ◌↔◌, Bool, true, List, [], ◌∷◌, Bytes, codes, bytes_eq, some, ok, arith}
use c2g.Common.Int.{pos, negsuc, wrap_signed}
use c2g.Val.Dyn.{Dyn, int, anys, done, more}
use c2g.Val.Format.{scalar, list_of, fmt_bool, fmt_int8, fmt_int32, fmt_uint8}
use c2g.Val.Strconv.{parse_int, format_int}
use c2g.Val.Strconv.RoundTrip.{parse_int-format_int}
use c2g.Val.Value.{Width, Enum, Value, num, num_list, format, to_string, width_kind}
use c2g.Val.Value.Enums.{by_id}
use c2g.Val.Value.Enums.Laws.{Ascending}
use c2g.Val.Value.Compare.{equal_value}
use c2g.Val.Value.Equal.{equal_value_iff}
use c2g.Val.Value.Items.{items}
use c2g.Val.Conv.{conv, conv_one_of}
use c2g.Val.Conv.Scalars.{to_int8, to_bool, to_uint8, to_int32}
use c2g.Val.Conv.Slices.{to_uint8_list}
use c2g.Val.Conv.Ranges.{Outcome, conv-Outcome}
use c2g.Val.Conv.RoundTrip.{conv-to_string}
use c2g.Val.Conv.Elements.{ItemsEach, conv_list-Each}
use c2g.Val.Samples.{bits}

abbrev print_nothing : List Bool → Bytes
print_nothing x = []

abbrev two_numbers : List (Value Bool)
two_numbers = num Width.int8 (negsuc 4) ∷ num Width.uint16 (pos 300) ∷ []

abbrev colours : List Enum
colours = record { id = pos 3; label = codes "red" } ∷ []

colours-Ascending : Ascending colours
colours-Ascending = (tt, omega arith, omega arith, tt)

minus_five_conv :
    conv bits (scalar fmt_int8) (Dyn.int int (negsuc 4)) ≡ ok (some (num Width.int8 (negsuc 4)))
unfolding conv to_int8 to_int32 wrap_signed
minus_five_conv = refl

bytes_of_list :
    conv bits
      (list_of fmt_uint8)
      (anys (more (Dyn.int int (pos 7)) (more (Dyn.int int (pos 9)) done)))
    ≡ ok (some (num_list Width.uint8 (pos 7 ∷ pos 9 ∷ [])))
unfolding conv to_uint8_list to_uint8 to_int32 wrap_signed
bytes_of_list = refl

conv-Outcome_example :
    Outcome Width.int8
      (pos 300)
      (conv bits (scalar (width_kind Width.int8)) (Dyn.int int (pos 300)))
conv-Outcome_example =
    conv-Outcome bits Width.int8 (Dyn.int int (pos 300)) (pos 300) (refl, omega arith) tt

conv-to_string_example :
    conv bits
      (format {F = Bool} (num Width.int8 (negsuc 4)))
      (Dyn.string (to_string bits print_nothing (num Width.int8 (negsuc 4))))
    ≡ ok (some (num Width.int8 (negsuc 4)))
conv-to_string_example = conv-to_string bits print_nothing (num Width.int8 (negsuc 4)) (omega arith)

conv_list-Each_example :
    ItemsEach
      (conv bits (scalar fmt_uint8))
      (more (Dyn.int int (pos 7)) (more (Dyn.int int (pos 9)) done))
      (items (num_list Width.uint8 (pos 7 ∷ pos 9 ∷ [])))
conv_list-Each_example =
    conv_list-Each bits fmt_uint8 (more (Dyn.int int (pos 7)) (more (Dyn.int int (pos 9)) done))
      (num_list Width.uint8 (pos 7 ∷ pos 9 ∷ [])) tt bytes_of_list

equal_value_iff_example :
    (equal_value bits (num Width.int8 (negsuc 4)) (num Width.uint8 (pos 4)) ≡ some true)
    ↔ (◌≡◌ {A = Value Bool} (num Width.int8 (negsuc 4)) (num Width.uint8 (pos 4)))
equal_value_iff_example =
    equal_value_iff bits (num Width.int8 (negsuc 4)) (num Width.uint8 (pos 4)) (omega arith)
      (omega arith)

parse_int-format_int_example : parse_int (format_int (negsuc 41)) ≡ some (negsuc 41)
parse_int-format_int_example = parse_int-format_int (negsuc 41) (omega arith)

red_found : by_id (pos 3) colours ≡ some (record { id = pos 3; label = codes "red" })
unfolding by_id
red_found = refl

-- "-5" is no boolean, and is a number for FmtInt32.
text_of_five :
    conv_one_of bits (scalar fmt_bool ∷ scalar fmt_int32 ∷ []) (Dyn.string (codes "-5"))
    ≡ ok (some (num Width.int32 (negsuc 4)), scalar fmt_int32)
unfolding conv_one_of conv to_bool to_int32 parse_int bytes_eq
text_of_five = refl
