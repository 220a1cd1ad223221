-- ===== src/Meta/Feature/Correct.antt =====
-- `Evaluate` computes the meaning of the expressions of `Grammar`.
use c2g.Common.{
  suc, ◌<◌, ◌≡◌, refl, ◌∙◌, Bool, false, ◌&&◌, ◌||◌, List, [], ◌∷◌, ◌++◌, Bytes, codes, some, arith,
  length, length-append, ok,
}
use c2g.Meta.Feature.{FeatureEval, eval, evaluate}
use c2g.Meta.Feature.Grammar.{
  Factor, feature, negation, group, Term, one, conjunction, Expr, term, disjunction, print_factor,
  print_term, print_expr, factor_holds, term_holds, holds, FactorNames, TermNames, ExprNames,
}
use c2g.Meta.Feature.Rounds.{
  at, Delimited, next-NameBytes, operate_name, Starts, print_factor-Starts, next_not, next_paren,
}
use c2g.Meta.Feature.Runs.{
  Runs, Yields, Runs-greedy_blank, Runs-loop, Runs-close, Runs-and, operate-not, operate_open,
  Runs-end, Runs-or,
}

-- A text ends behind what it is printed in front of.
mutual
  unfolding print_factor print_term

  length-print_factor :
      (p : Factor) (tail : Bytes) → FactorNames p → length tail < length (print_factor p tail)
  length-print_factor (feature []) tail n = absurd (n.ne_nil refl)
  length-print_factor (feature (c ∷ x)) tail n = omega (arith, length-append x tail)
  length-print_factor (negation p) tail n = omega (arith, length-print_factor p tail n)
  length-print_factor (group t) tail n = omega (arith, length-print_term t (codes ")" ++ tail) n)

  length-print_term :
      (t : Term) (tail : Bytes) → TermNames t → length tail < length (print_term t tail)
  length-print_term (one p) tail n = length-print_factor p tail n
  length-print_term (conjunction p t) tail n = omega (
    arith,
    length-print_factor p (codes " and " ++ print_term t tail) n.0,
    length-print_term t tail n.1,
  )

and_assoc : (a b c : Bool) → ((a && b) && c) ≡ (a && (b && c))
and_assoc a b c = ground arith

-- A factor puts its value on the stack; a term does, and the evaluation goes on behind it; a
-- term behind `and` is joined to the value on the stack.
mutual
  unfolding print_factor print_term factor_holds term_holds

  pub factor-Yields :
      (on : List Bytes) (p : Factor) (tail : Bytes)
      → FactorNames p
      → Delimited tail
      → Yields on (print_factor p tail) tail (factor_holds on p)
  factor-Yields on (feature []) tail n d f stack h = absurd (n.ne_nil refl)
  factor-Yields on (feature (c ∷ x)) tail n d f stack h =
      rw (next-NameBytes c x tail n.name_bytes d)
        (operate_name on (eval on f) (c ∷ x) (at tail stack) n)
  factor-Yields on (negation p) tail n d f stack h = rw (next_not (print_factor p tail)) (
      operate-not on (eval on f) (b' ' ∷ print_factor p tail) tail (factor_holds on p) stack (
        Runs-greedy_blank on (print_factor p tail) tail (factor_holds on p) stack
          (print_factor-Starts p tail n d) (factor-Yields on p tail n d) f (omega arith)))
  factor-Yields on (group t) tail n d f stack h =
      rw (next_paren b'(' (print_term t (codes ")" ++ tail)) refl) (
        operate_open on (eval on f) (at (print_term t (codes ")" ++ tail)) stack)
        ∙ term-Runs on t (codes ")" ++ tail) stack (at tail (term_holds on t ∷ stack)) n refl
            (Runs-close on tail (term_holds on t ∷ stack)) f (omega arith))

  term-Runs :
      (on : List Bytes) (t : Term) (tail : Bytes) (stack : List Bool) (z : FeatureEval)
      → TermNames t
      → Delimited tail
      → Runs on false tail (term_holds on t ∷ stack) z
      → Runs on false (print_term t tail) stack z
  term-Runs on (one p) tail stack z n d h =
      Runs-loop on (print_factor p tail) tail (factor_holds on p) stack z
        (length-print_factor p tail n) (print_factor-Starts p tail n d)
        (factor-Yields on p tail n d) h
  term-Runs on (conjunction p t) tail stack z n d h =
      let rest = codes " and " ++ print_term t tail in
      Runs-loop on (print_factor p rest) rest (factor_holds on p) stack z
        (length-print_factor p rest n.0) (print_factor-Starts p rest n.0 refl)
        (factor-Yields on p rest n.0 refl)
        (chain-Runs on t tail (factor_holds on p) stack z n.1 d h)

  chain-Runs :
      (on : List Bytes) (t : Term) (tail : Bytes) (a : Bool) (stack : List Bool) (z : FeatureEval)
      → TermNames t
      → Delimited tail
      → Runs on false tail ((a && term_holds on t) ∷ stack) z
      → Runs on false (codes " and " ++ print_term t tail) (a ∷ stack) z
  chain-Runs on (one p) tail a stack z n d h =
      Runs-and on (print_factor p tail) tail (factor_holds on p) a stack z
        (length-print_factor p tail n) (print_factor-Starts p tail n d)
        (factor-Yields on p tail n d) h
  chain-Runs on (conjunction p t) tail a stack z n d h =
      let rest = codes " and " ++ print_term t tail in
      Runs-and on (print_factor p rest) rest (factor_holds on p) a stack z
        (length-print_factor p rest n.0) (print_factor-Starts p rest n.0 refl)
        (factor-Yields on p rest n.0 refl)
        (chain-Runs on t tail (a && factor_holds on p) stack z n.1 d
          (rw (and_assoc a (factor_holds on p) (term_holds on t)) h))

print_term-Starts :
    (t : Term) (tail : Bytes) → TermNames t → Delimited tail → Starts (print_term t tail)
unfolding print_term
print_term-Starts (one p) tail n d = print_factor-Starts p tail n d
print_term-Starts (conjunction p t) tail n d =
    print_factor-Starts p (codes " and " ++ print_term t tail) n.0 refl

print_expr-Starts : (e : Expr) → ExprNames e → Starts (print_expr e)
unfolding print_expr
print_expr-Starts (term t) n = print_term-Starts t [] n tt
print_expr-Starts (disjunction t e) n = print_term-Starts t (codes " or " ++ print_expr e) n.0 refl

or_Runs :
    (on : List Bytes) (q : Bytes) (v a : Bool) (stack : List Bool)
    → Starts q
    → Runs on false q (a ∷ stack) (at [] (v ∷ a ∷ stack))
    → Runs on false (codes " or " ++ q) (a ∷ stack) (at [] ((a || v) ∷ stack))
or_Runs on q v a stack st h = rw st.splits (
    Runs-or on st.first st.later [] v a stack (at [] ((a || v) ∷ stack)) (omega arith)
      (rw st.splits at h) (Runs-end on false ((a || v) ∷ stack)))

expr-Runs :
    (on : List Bytes) (e : Expr) (stack : List Bool)
    → ExprNames e
    → Runs on false (print_expr e) stack (at [] (holds on e ∷ stack))
unfolding print_expr holds
expr-Runs on (term t) stack n =
    term-Runs on t [] stack (at [] (term_holds on t ∷ stack)) n tt
      (Runs-end on false (term_holds on t ∷ stack))
expr-Runs on (disjunction t e) stack n =
    term-Runs on t (codes " or " ++ print_expr e) stack _ n.0 refl (
      or_Runs on (print_expr e) (holds on e) (term_holds on t) stack (print_expr-Starts e n.1)
        (expr-Runs on e (term_holds on t ∷ stack) n.1))

-- From a run to the result.
pub evaluate_of_Runs :
    (s : Bytes) (on : List Bytes) (v : Bool)
    → Runs on false s [] (at [] (v ∷ []))
    → evaluate s on ≡ some (ok v)
unfolding evaluate
evaluate_of_Runs s on v h = rw (h (suc (length s)) (omega arith)) refl

-- On the text of an expression whose groups hold no `or` at their own level, `Evaluate` gives the
-- truth value that RFC 7950 gives it: `not` binds tighter than `and`, and `and` than `or`.
pub evaluate-print_expr :
    (e : Expr) (enabled : List Bytes)
    → ExprNames e
    → evaluate (print_expr e) enabled ≡ some (ok (holds enabled e))
evaluate-print_expr e enabled n =
    evaluate_of_Runs (print_expr e) enabled (holds enabled e) (expr-Runs enabled e [] n)
