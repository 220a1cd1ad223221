-- ===== src/Node/ListRange/Parse.antt =====
-- node/list_range.go: `NewListRange` reads a printed range.
use c2g.Common.{
  ℕ, zero, suc, ◌+◌, ◌/◌, ◌%◌, ◌^◌, ◌<◌, ◌≡◌, refl, ◌∙◌, false, List, [], ◌∷◌, ◌++◌, Bytes, codes,
  Option, none, some, ◌==◌, ltb, All, arith, Bool-cases, inl, inr, ok,
}
use c2g.Common.Int.{ℤ, pos, negsuc}
use c2g.Val.Strconv.{parse_int, format_onto, format_uint}
use c2g.Val.Strconv.RoundTrip.{parse_int-format_uint}
use c2g.Node.Matcher.{Slice, parse_path_expression}
use c2g.Node.ListRange.{cut, split, end_of, with_rows, new_list_range}

-- The byte does not occur.
abbrev pub Free : ℕ → Bytes → Type 0
Free sep s = All (λ c. (c == sep) ≡ false) s

abbrev end_text : Option ℕ → Bytes
end_text none = []
end_text (some e) = format_uint e

abbrev pub end_row : Option ℕ → ℤ
end_row none = negsuc 0
end_row (some e) = pos e

abbrev pub EndFits : Option ℕ → Type 0
EndFits none = Unit
EndFits (some e) = e < 2 ^ 63

-- `selector!start-[end]`
abbrev pub range_text : Bytes → ℕ → Option ℕ → Bytes
range_text selector s end =
    selector ++ (codes "!" ++ (format_uint s ++ (codes "-" ++ end_text end)))

format_onto-Free : (f n : ℕ) (rest : Bytes) → Free b'-' rest → Free b'-' (format_onto f n rest)
unfolding format_onto
format_onto-Free zero n rest h = h
format_onto-Free (suc f) n rest h = elim (Bool-cases (ltb n 10)) [
  | inl small ↦ rw small (ground arith, h)
  | inr big ↦ rw big (format_onto-Free f (n / 10) ((b'0' + n % 10) ∷ rest) (ground arith, h))
]

format_uint-Free : (n : ℕ) → Free b'-' (format_uint n)
unfolding format_uint
format_uint-Free n = format_onto-Free (suc n) n [] tt

pub cut-Free : (sep : ℕ) (x t : Bytes) → Free sep x → cut sep (x ++ sep ∷ t) ≡ some (x, t)
unfolding cut
cut-Free sep [] t h = ground arith
cut-Free sep (c ∷ x) t h = rw (h.0, cut-Free sep x t h.1) refl

pub split-Free :
    (sep : ℕ) (x t part : Bytes) (parts : List Bytes)
    → Free sep x
    → split sep t ≡ (part, parts)
    → split sep (x ++ sep ∷ t) ≡ (x, part ∷ parts)
unfolding split
split-Free sep [] t part parts h e = ground arith
split-Free sep (c ∷ x) t part parts h e = rw (h.0, split-Free sep x t part parts h.1 e) refl

pub split-Free_end : (sep : ℕ) (x : Bytes) → Free sep x → split sep x ≡ (x, [])
unfolding split
split-Free_end sep [] h = refl
split-Free_end sep (c ∷ x) h = rw (h.0, split-Free_end sep x h.1) refl

parse_uint : (n : ℕ) → n < 2 ^ 63 → parse_int (format_uint n) ≡ some (pos n)
parse_uint n h = parse_int-format_uint n ∙ ground arith

end_of_one : (x : Bytes) (z : ℤ) → parse_int x ≡ some z → end_of (x ∷ []) ≡ some z
unfolding end_of
end_of_one [] z e = unfold parse_int in cc
end_of_one (c ∷ x) z e = e

end_of-end_text : (end : Option ℕ) → EndFits end → end_of (end_text end ∷ []) ≡ some (end_row end)
unfolding end_of
end_of-end_text none h = refl
end_of-end_text (some e) h = end_of_one (format_uint e) (pos e) (parse_uint e h)

end_text-Free : (end : Option ℕ) → Free b'-' (end_text end)
end_text-Free none = tt
end_text-Free (some e) = format_uint-Free e

with_rows_of_text :
    (slices : List Slice) (s : ℕ) (end : Option ℕ)
    → s < 2 ^ 63
    → EndFits end
    → with_rows slices (format_uint s, end_text end ∷ [])
      ≡ ok (record { selector = slices; start_row = pos s; end_row = end_row end })
unfolding with_rows
with_rows_of_text slices s end h k = rw (with_rows, parse_uint s h, end_of-end_text end k) refl

-- The text of a range, with an end or with none, whose selector holds no `!` and whose rows are
-- below 2 ^ 63, is read back: the selector as ParsePathExpression reads it, the start row, and
-- the end row, which is -1 where none is given.
pub new_list_range-range_text :
    (selector : Bytes) (slices : List Slice) (rest : Bytes) (s : ℕ) (end : Option ℕ)
    → Free b'!' selector
    → parse_path_expression selector ≡ some (slices, rest)
    → s < 2 ^ 63
    → EndFits end
    → new_list_range (range_text selector s end)
      ≡ some (ok (record { selector = slices; start_row = pos s; end_row = end_row end }))
unfolding new_list_range
new_list_range-range_text selector slices rest s end free parsed h k =
    rw
      (
        new_list_range,
        cut-Free b'!' selector (format_uint s ++ (codes "-" ++ end_text end)) free,
        parsed,
        split-Free b'-' (format_uint s) (end_text end) (end_text end) [] (format_uint-Free s)
            (split-Free_end b'-' (end_text end) (end_text-Free end)),
        with_rows_of_text slices s end h k,
      )
      refl
