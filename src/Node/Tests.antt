-- ===== src/Node/Tests.antt =====
-- Paths and path expressions on concrete inputs.
use c2g.Common.{
  true, ok, ◌+◌, suc, List, arith, ◌≡◌, refl, Bool, [], ◌∷◌, Bytes, codes, some, length, ◌==◌, ◌||◌,
}
use c2g.Node.Matcher.{product}
use c2g.Node.Matcher.Match.Prefix.{NotLonger}
use c2g.Node.Matcher.{Parsed}
use c2g.Node.Matcher.Total.{parse_path_expression-total}
use c2g.Val.Value.{string}
use c2g.Val.Samples.{bits}
use c2g.Node.Path.{Segment, NodePath}
use c2g.Common.Int.{pos}
use c2g.Node.FieldsMatcher.{filter_fields, differs}
use c2g.Node.FieldsMatcher.Prefix.{request, filter_fields-has_prefix}
use c2g.Node.ListRange.{rows, new_list_range}
use c2g.Node.ListRange.Rows.{count, from_to, first_request, rows-from_to}
use c2g.Node.ListRange.Parse.{range_text, end_row, new_list_range-range_text}
use c2g.Node.Matcher.Match.{path_matches}
use c2g.Node.Matcher.Match.Laws.{Step, idents}
use c2g.Node.Matcher.Match.Prefix.{below, has_prefix, path_matches-has_prefix}
use c2g.Node.Matcher.{Slice, parse_path_expression}
use c2g.Node.Matcher.Grammar.{
  Alternatives, only, either, more, last, name, group, IsName, IsValid, print_alternatives, paths,
}
use c2g.Node.Matcher.Parse.{parse_path_expression-print}

abbrev item : NodePath Bool
item =
    record { meta = some (codes "b"); key = string (codes "k") ∷ [] }
    ∷ record { meta = some (codes "a"); key = [] }
    ∷ []

abbrev to_z : Segment Bool → Bytes
to_z s = codes "z"

IsName-a : IsName (codes "a")
IsName-a = record { name_bytes = (refl, tt); ne_nil = λ e. cc }

IsName-b : IsName (codes "b")
IsName-b = record { name_bytes = (refl, tt); ne_nil = λ e. cc }

-- `b;a`
abbrev choice : Alternatives
choice = either (last (name (codes "b"))) (only (last (name (codes "a"))))

-- `a/(b;a)/b`
abbrev nested : Alternatives
nested = only (more (name (codes "a")) (more (group choice) (last (name (codes "b")))))

choice-IsValid : IsValid choice
choice-IsValid = (IsName-b, tt, (IsName-a, tt))

parse_path_expression-print_example :
    parse_path_expression (print_alternatives nested []) ≡ some (paths nested, [])
parse_path_expression-print_example =
    parse_path_expression-print nested ((IsName-a, (choice-IsValid, IsName-b)), tt)

abbrev root : NodePath Bool
root = record { meta = some (codes "m"); key = [] } ∷ []

-- `a=k/b`
abbrev way : List (Step Bool)
way = (codes "a", string (codes "k") ∷ []) ∷ (codes "b", []) ∷ []

abbrev long : Slice
long = codes "a" ∷ codes "b" ∷ codes "c" ∷ []

path_matches-has_prefix_example :
    path_matches bits ((codes "b" ∷ []) ∷ (codes "a" ∷ codes "b" ∷ []) ∷ []) root (below root way)
    ≡ some (
        length {A = Slice} ((codes "b" ∷ []) ∷ (codes "a" ∷ codes "b" ∷ []) ∷ []) == 0
        || has_prefix ((codes "b" ∷ []) ∷ (codes "a" ∷ codes "b" ∷ []) ∷ []) (idents way))
path_matches-has_prefix_example =
    path_matches-has_prefix bits root root ((codes "m", refl), tt) refl
      ((codes "b" ∷ []) ∷ (codes "a" ∷ codes "b" ∷ []) ∷ []) way
      (omega arith, omega arith, (omega arith, omega arith, tt))

-- `a;b/a`
abbrev ab : Alternatives
ab = either (last (name (codes "a"))) (only (more (name (codes "b")) (last (name (codes "a")))))

ab-NotLonger : NotLonger (length way) (paths ab)
unfolding paths product
ab-NotLonger = (omega arith, omega arith, (omega arith, omega arith, tt))

filter_fields-has_prefix_example :
    filter_fields bits true (print_alternatives ab []) (request root root way)
    ≡ some (differs (has_prefix (paths ab) (idents way)) true)
filter_fields-has_prefix_example =
    filter_fields-has_prefix bits root root ((codes "m", refl), tt) refl true ab way
      (IsName-a, tt, ((IsName-b, IsName-a), tt)) ab-NotLonger

-- The empty expression selects every list.
all_lists : path_matches bits [] root root ≡ some true
unfolding path_matches
all_lists = refl

rows-from_to_example :
    rows bits (from_to [] 2 (2 + suc 2)) 9 (first_request root root) ≡ some (count 2 (suc 2))
rows-from_to_example = rows-from_to bits [] root root all_lists 9 2 2 (omega arith) (omega arith)

selector_b : parse_path_expression (codes "b") ≡ some ((codes "b" ∷ []) ∷ [], [])
unfolding parse_path_expression
selector_b = refl

new_list_range-range_text_example :
    new_list_range (range_text (codes "b") 4 (some 20))
    ≡ some (
        ok (record {
          selector = (codes "b" ∷ []) ∷ [];
          start_row = pos 4;
          end_row = end_row (some 20);
        }))
new_list_range-range_text_example =
    new_list_range-range_text (codes "b") ((codes "b" ∷ []) ∷ []) [] 4 (some 20) (refl, tt)
      selector_b (omega arith) (omega arith)

parse_path_expression-total_example :
    (z : Parsed) × (parse_path_expression (codes "a/(b;)//c)d") ≡ some z)
parse_path_expression-total_example = parse_path_expression-total (codes "a/(b;)//c)d")
