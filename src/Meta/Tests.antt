-- ===== src/Meta/Tests.antt =====
-- The evaluation of if-feature expressions on concrete inputs.
use c2g.Common.{
  ℕ, ◌≡◌, refl, ◌↔◌, Bool, true, false, not, ◌&&◌, ◌||◌, [], ◌∷◌, codes, some, none, Bytes, Result,
  ok, ◌==◌, if◌then◌else◌,
}
use c2g.Val.Format.{scalar, fmt_string}
use c2g.Meta.Mixin.{TypeDef}
use c2g.Meta.Mixin.Laws.{chain, resolved, chain-resolved}
use c2g.Meta.Feature.{evaluate, has_key, is_paren}
use c2g.Meta.Feature.Total.{evaluate-total}
use c2g.Meta.Feature.Grammar.{
  Expr, disjunction, term, conjunction, one, feature, negation, group, IsName, print_expr, holds,
}
use c2g.Meta.Feature.Correct.{evaluate-print_expr}
use c2g.Meta.Feature.Set.{SupportedFeatures, features_off, initialize, resolve, check_feature, keys}
use c2g.Meta.Feature.Set.Laws.{
  has_key-initialize, Resolved, resolve-Resolved, SaysYes, AllHold, check_feature-AllHold,
}

-- A name of one letter.
letter_IsName : (c : ℕ) → ((c == b' ' || is_paren c) ≡ false) → IsName (c ∷ [])
letter_IsName c h = record {
  name_bytes = (h, tt);
  ne_nil = λ e. cc;
  not_and = λ e. cc;
  not_or = λ e. cc;
  not_not = λ e. cc;
}

-- `a and not b or (c and a)`
abbrev sample : Expr
sample =
    disjunction (conjunction (feature (codes "a")) (one (negation (feature (codes "b")))))
      (term (one (group (conjunction (feature (codes "c")) (one (feature (codes "a")))))))

abbrev all_but_b : SupportedFeatures
all_but_b = features_off (codes "b" ∷ [])

abbrev ready : SupportedFeatures
ready = record {
  specified = codes "b" ∷ [];
  otherwise_on = true;
  enabled = some (codes "a" ∷ codes "c" ∷ []);
  cache = some [];
}

evaluate-print_expr_example :
    evaluate (print_expr sample) (codes "a" ∷ []) ≡ some (ok (holds (codes "a" ∷ []) sample))
evaluate-print_expr_example = evaluate-print_expr sample (codes "a" ∷ []) (
  (letter_IsName b'a' refl, letter_IsName b'b' refl),
  (letter_IsName b'c' refl, letter_IsName b'a' refl),
)

evaluate-total_example :
    (r : Result (Unit {0}) Bool) × (evaluate (codes "a or (b") (codes "a" ∷ []) ≡ some r)
evaluate-total_example = evaluate-total (codes "a or (b") (codes "a" ∷ [])

has_key-initialize_example :
    has_key
      (codes "c")
      (keys (initialize all_but_b (codes "a" ∷ codes "b" ∷ codes "c" ∷ [])).enabled)
    ≡ (if all_but_b.otherwise_on
        then has_key (codes "c") (codes "a" ∷ codes "b" ∷ codes "c" ∷ [])
          && not (has_key (codes "c") all_but_b.specified)
        else has_key (codes "c") (codes "a" ∷ codes "b" ∷ codes "c" ∷ [])
          && has_key (codes "c") all_but_b.specified)
      || has_key (codes "c") (keys all_but_b.enabled)
has_key-initialize_example =
    has_key-initialize all_but_b (codes "a" ∷ codes "b" ∷ codes "c" ∷ []) (codes "c")

resolve-Resolved_example : Resolved ready (codes "a and c") (resolve ready (codes "a and c"))
resolve-Resolved_example = resolve-Resolved ready (codes "a and c") tt

check_feature-AllHold_example :
    SaysYes (check_feature ready (codes "a" ∷ codes "b or c" ∷ []))
    ↔ AllHold (codes "a" ∷ codes "c" ∷ []) (codes "a" ∷ codes "b or c" ∷ [])
check_feature-AllHold_example = check_feature-AllHold ready (codes "a" ∷ codes "b or c" ∷ []) tt

-- Types whose patterns, ranges, enums, identities and members are texts.
abbrev Plain : Type 0
Plain = TypeDef Bytes Bytes Bytes Bytes Bytes

abbrev plain : Plain
plain = record {
  patterns = [];
  path = [];
  ranges = none;
  enums = none;
  base = [];
  union_types = none;
  lengths = none;
  identity = none;
  format = scalar fmt_string;
}

abbrev word : Plain
word = record plain { patterns = codes "[a-z]+" ∷ [] }

abbrev short : Plain
short = record plain { lengths = some (codes "1..8" ∷ []) }

chain-resolved_example : chain short (word ∷ plain ∷ []) ≡ resolved short (word ∷ plain ∷ [])
chain-resolved_example = chain-resolved short (word ∷ plain ∷ [])
