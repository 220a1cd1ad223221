-- ===== src/Val/Samples.antt =====
-- An instance of the float operations, for the tests: floats that are 0 or 1.
use c2g.Common.{Bool, true, false, [], ◌∷◌, Bytes, codes, Option, none, some, if◌then◌else◌, ◌==◌}
use c2g.Common.Int.{ℤ, pos, ◌-ℤ◌}
use c2g.Val.Dyn.{Floats}
use c2g.Val.Value.Enums.{eq_ℤ}

abbrev of_bool : Bool → ℤ
of_bool false = pos 0
of_bool true = pos 1

abbrev parse_bit : Bytes → Option Bool
parse_bit [] = none
parse_bit (c ∷ s) = if c == b'1' then some true else some false

abbrev bit_text : Bool → Bytes
bit_text true = codes "1"
bit_text false = codes "0"

abbrev same_bit : Bool → Bool → Bool
same_bit true b = b
same_bit false true = false
same_bit false false = true

abbrev pub bits : Floats Bool
bits = record {
  truncate = of_bool;
  truncate_unsigned = of_bool;
  from_int = λ z. eq_ℤ z (pos 1);
  parse_float = parse_bit;
  format_rounded = bit_text;
  format_f = bit_text;
  sign_of_difference = λ x y. of_bool x -ℤ of_bool y;
  equal_float = same_bit;
  print_any = λ x. codes "?";
}
