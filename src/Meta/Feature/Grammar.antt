-- ===== src/Meta/Feature/Grammar.antt =====
-- The if-feature expressions of RFC 7950 section 7.20.2, their text and their meaning, with no
-- evaluator in it. A group in parentheses holds no `or` at its own level.
use c2g.Common.{
  Bool, false, not, ◌&&◌, ◌||◌, List, [], ◌∷◌, ◌++◌, Bytes, codes, ◌==◌, ◌≡◌, ◌≢◌, ◌||◌,
}
use c2g.Meta.Feature.{has_key, is_paren}

mutual
  pub data Factor : Type 0 where
    feature : Bytes → Factor
    negation : Factor → Factor
    group : Term → Factor

  pub data Term : Type 0 where
    one : Factor → Term
    conjunction : Factor → Term → Term

pub data Expr : Type 0 where
  term : Term → Expr
  disjunction : Term → Expr → Expr

-- The text in front of `tail`.
unfoldable mutual
  pub print_factor : Factor → Bytes → Bytes
  print_factor (feature x) tail = x ++ tail
  print_factor (negation p) tail = codes "not " ++ print_factor p tail
  print_factor (group t) tail = codes "(" ++ print_term t (codes ")" ++ tail)

  pub print_term : Term → Bytes → Bytes
  print_term (one p) tail = print_factor p tail
  print_term (conjunction p t) tail = print_factor p (codes " and " ++ print_term t tail)

unfoldable pub print_expr : Expr → Bytes
unfolding print_term
print_expr (term t) = print_term t []
print_expr (disjunction t e) = print_term t (codes " or " ++ print_expr e)

unfoldable mutual
  pub factor_holds : List Bytes → Factor → Bool
  factor_holds on (feature x) = has_key x on
  factor_holds on (negation p) = not (factor_holds on p)
  factor_holds on (group t) = term_holds on t

  pub term_holds : List Bytes → Term → Bool
  term_holds on (one p) = factor_holds on p
  term_holds on (conjunction p t) = factor_holds on p && term_holds on t

unfoldable pub holds : List Bytes → Expr → Bool
unfolding term_holds
holds on (term t) = term_holds on t
holds on (disjunction t e) = term_holds on t || holds on e

-- A name: no blank and no parenthesis in it, and not empty; nor is it an operator.
abbrev pub NameBytes : Bytes → Type 0
NameBytes [] = Unit
NameBytes (c ∷ s) = ((c == b' ' || is_paren c) ≡ false) × NameBytes s

pub record IsName (x : Bytes) : Type 0 where
  pub name_bytes : NameBytes x
  pub ne_nil : x ≢ []
  pub not_and : x ≢ codes "and"
  pub not_or : x ≢ codes "or"
  pub not_not : x ≢ codes "not"

abbrev mutual
  pub FactorNames : Factor → Type 0
  FactorNames (feature x) = IsName x
  FactorNames (negation p) = FactorNames p
  FactorNames (group t) = TermNames t

  pub TermNames : Term → Type 0
  TermNames (one p) = FactorNames p
  TermNames (conjunction p t) = FactorNames p × TermNames t

-- Every feature of the expression is named by a name.
abbrev pub ExprNames : Expr → Type 0
ExprNames (term t) = TermNames t
ExprNames (disjunction t e) = TermNames t × ExprNames e
