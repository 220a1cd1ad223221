-- ===== src/Val/Conv/Formats.antt =====
-- The value that `Conv` makes has the format that was asked for.
use c2g.Common.{◌≡◌, some, arith, ok}
use c2g.Val.Dyn.{Dyn, nil, Floats}
use c2g.Val.Format.{Format, scalar, fmt_bool}
use c2g.Val.Value.{Value, format}
use c2g.Val.Conv.{conv_to, conv}

module _ {F : Type 0} (lib : Floats F) where
  conv_to-format :
      (f : Format) (v : Dyn F) (x : Value F) → conv_to lib f v ≡ ok (some x) → format x ≡ f
  unfolding conv_to format
  conv_to-format (scalar fmt_bool) v x e = ground arith
  conv_to-format _ v x e = ground arith

  -- Whatever value `Conv` returns has the format that was asked for.
  pub conv-format :
      (f : Format) (v : Dyn F) (x : Value F) → conv lib f v ≡ ok (some x) → format x ≡ f
  unfolding conv
  conv-format f nil x e = cc
  conv-format f v x e = conv_to-format f v x e
