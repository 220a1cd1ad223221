-- ===== src/Val/Dyn.antt =====
-- The Go values that reach the package `val` as `interface{}` (val/conv.go switches on their
-- dynamic types), on a platform whose `int` and `uint` have 64 bits, and what the conversions take
-- from the packages strconv and fmt.
use c2g.Common.{Bool, List, Option, Bytes}
use c2g.Common.Int.{ℤ}
use Prim.Native.String.{String}

-- Go's integer types.
pub data IntKind : Type 0 where
  int8 uint8 int16 uint16 int32 uint32 int64 uint64 int uint : IntKind

-- `F` stands for `float64`; a `float32` is one of its values. `time` holds `Unix()` of a
-- `time.Time`. `other` is a value of any other type: `reflect.ValueOf(val).Int()` of it, which
-- panics where that is `none`, and its text under `%v`.
mutual
  pub data Dyn (F : Type 0) : Type 0 where
    nil : Dyn F
    bool : Bool → Dyn F
    int : IntKind → ℤ → Dyn F
    float64 : F → Dyn F
    float32 : F → Dyn F
    string : Bytes → Dyn F
    time : ℤ → Dyn F
    bools : List Bool → Dyn F
    ints : IntKind → List ℤ → Dyn F
    floats : List F → Dyn F
    strings : List Bytes → Dyn F
    times : List ℤ → Dyn F
    anys : Dyns F → Dyn F
    other : Option ℤ → Bytes → Dyn F

  -- `[]interface{}`
  pub data Dyns (F : Type 0) : Type 0 where
    done : Dyns F
    more : Dyn F → Dyns F → Dyns F

-- The operations on `float64` that the source uses: the conversions between it and the integer
-- types, the texts of strconv and fmt, and the sign of a difference (-1, 0 or 1).
pub record Floats (F : Type 0) : Type 0 where
  pub truncate : F → ℤ
  pub truncate_unsigned : F → ℤ
  pub from_int : ℤ → F
  pub parse_float : Bytes → Option F
  pub format_rounded : F → Bytes
  pub format_f : F → Bytes
  pub sign_of_difference : F → F → ℤ
  -- `==`
  pub equal_float : F → F → Bool
  -- `fmt.Sprintf("%v", …)` of what is no string, integer or boolean
  pub print_any : Dyn F → Bytes

-- What goes wrong: "cannot coerse … to …" with the name of the type, or an error of strconv.
pub data ConvError : Type 0 where
  cannot_coerse : String → ConvError
  bad_number : ConvError
  no_format : ConvError
