-- ===== src/Meta/Range/Bounds.antt =====
-- meta/core.go: which bounds `newRange` reads.
use c2g.Common.{◌≡◌, false, Bytes, ◌==◌, All}

-- A text without dots.
abbrev pub HasNoDot : Bytes → Type 0
HasNoDot s = All (λ c. (c == b'.') ≡ false) s
