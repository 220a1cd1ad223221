-- ===== src/Node/FieldsMatcher/Prefix.antt =====
-- node/fields_matcher.go: from the text of an expression to the fields that it lets through.
use c2g.Common.{
  ◌≡◌, refl, ap, ◌∙◌, Bool, false, ◌||◌, List, [], ◌∷◌, some, length, ◌==◌, All, arith,
}
use c2g.Val.Dyn.{Floats}
use c2g.Node.Path.{NodePath}
use c2g.Node.Path.Laws.{HasMeta}
use c2g.Node.Matcher.{Slice}
use c2g.Node.Matcher.Grammar.{Alternatives, IsValid, print_alternatives, paths}
use c2g.Node.Matcher.Products.{IsCons, paths-IsCons}
use c2g.Node.Matcher.Parse.{parse_path_expression-print}
use c2g.Node.Matcher.Match.Laws.{Step, idents}
use c2g.Node.Matcher.Match.Prefix.{below, has_prefix, NotLonger, path_matches-has_prefix}
use c2g.Node.FieldsMatcher.{
  FieldsMatcher, FieldRequest, new_matcher, differs, check_fields, filter_fields,
}

new_matcher-print :
    (reverse : Bool) (a : Alternatives)
    → IsValid a
    → new_matcher reverse (print_alternatives a [])
      ≡ some
          (record { expression = print_alternatives a []; reverse = reverse; selector = paths a })
unfolding new_matcher
new_matcher-print reverse a v = rw (new_matcher, parse_path_expression-print a v) refl

selects : (slices : List Slice) → IsCons slices → (b : Bool) → ((length slices == 0) || b) ≡ b
selects [] h b = absurd h
selects (x ∷ slices) h b = ground arith

-- A request from `base` for what lies below `b`.
abbrev pub request : {F : Type 0} → NodePath F → NodePath F → List (Step F) → FieldRequest F
request base b r = record { navigation = false; base = base; path = below b r }

module _ {F : Type 0} (lib : Floats F) (base b : NodePath F) (h : All HasMeta b)
    (e : length b ≡ length base) where
  check_fields-has_prefix :
      (self : FieldsMatcher) (r : List (Step F))
      → NotLonger (length r) self.selector
      → check_fields lib self (request base b r)
        ≡ some (
            differs (length self.selector == 0 || has_prefix self.selector (idents r)) self.reverse)
  unfolding check_fields
  check_fields-has_prefix self r q =
      rw (check_fields, path_matches-has_prefix lib base b h e self.selector r q) refl

  -- The filter that is made of the text of a path expression lets a field through exactly where
  -- the identifiers on the way from the base to the field begin with one of the paths that the
  -- expression stands for, and the excluding filter exactly where they do not. The names hold no
  -- delimiter, every sequence begins with a name, no path is empty or longer than that way, the
  -- request is no navigation, and the base and the upper part of the path are of one length, with
  -- definitions in the segments of that part.
  pub filter_fields-has_prefix :
      (reverse : Bool) (a : Alternatives) (r : List (Step F))
      → IsValid a
      → NotLonger (length r) (paths a)
      → filter_fields lib reverse (print_alternatives a []) (request base b r)
        ≡ some (differs (has_prefix (paths a) (idents r)) reverse)
  unfolding filter_fields
  filter_fields-has_prefix reverse a r v q =
      rw (filter_fields, new_matcher-print reverse a v)
        (check_fields-has_prefix
            (record { expression = print_alternatives a []; reverse = reverse; selector = paths a })
            r q
          ∙ ap (λ some_slice. some (differs some_slice reverse))
              (selects (paths a) (paths-IsCons a) (has_prefix (paths a) (idents r))))
