-- ===== src/Meta/Feature/Runs.antt =====
-- Runs of the evaluator over the pieces of an expression.
use c2g.Common.{
  ℕ, zero, suc, ◌<◌, ◌≤◌, ◌≡◌, ◌≢◌, refl, ◌∙◌, Bool, true, false, not, ◌&&◌, ◌||◌, List, [], ◌∷◌,
  ◌++◌, Bytes, codes, bytes_eq, Option, some, arith, length,
}
use c2g.Meta.Feature.{FeatureEval, next, operate, round, scan, eval, binary, negate_top}
use c2g.Meta.Feature.Total.{next_blank}
use c2g.Meta.Feature.Rounds.{at, eval_round, Starts, next_paren, next_and, next_or}

and_ne_close : codes "and" ≢ codes ")"
and_ne_close e = ground arith

or_ne_close : codes "or" ≢ codes ")"
or_ne_close e = ground arith

module _ (on : List Bytes) where
  -- At every fuel that is large enough, the evaluator goes from a text and a stack to a state.
  abbrev pub Runs : Bool → Bytes → List Bool → FeatureEval → Type 0
  Runs g s stack z = (f : ℕ) → length s < f → eval on f g (at s stack) ≡ some z

  -- The first token of `s`, and what it makes the evaluator do, lead to the text `tail` with `v`
  -- on the stack.
  abbrev pub Yields : Bytes → Bytes → Bool → Type 0
  Yields s tail v =
      (f : ℕ) (stack : List Bool)
      → length s < suc f
      → operate on (eval on f) (next s).0 (at (next s).1 stack) ≡ some (at tail (v ∷ stack))

  -- A blank in front changes nothing.
  pub Runs-blank :
      (g : Bool) (c : ℕ) (s : Bytes) (stack : List Bool) (z : FeatureEval)
      → Runs g (c ∷ s) stack z
      → Runs g (b' ' ∷ c ∷ s) stack z
  unfolding eval scan
  Runs-blank g c s stack z h zero p = absurd (omega arith)
  Runs-blank g c s stack z h (suc f) p = rw (next_blank (c ∷ s)) (h (suc f) (omega arith))

  -- Under a prefix operator one factor is read.
  pub Runs-greedy :
      (s tail : Bytes) (v : Bool) (stack : List Bool)
      → Starts s
      → Yields s tail v
      → Runs true s stack (at tail (v ∷ stack))
  Runs-greedy s tail v stack st y zero p = absurd (omega arith)
  Runs-greedy s tail v stack st y (suc f) p = rw st.splits (
      eval_round on f true st.first st.later stack (at tail (v ∷ stack)) (rw st.splits at st.opens)
        (rw st.splits at (y f stack p)))

  pub Runs-greedy_blank :
      (s tail : Bytes) (v : Bool) (stack : List Bool)
      → Starts s
      → Yields s tail v
      → Runs true (b' ' ∷ s) stack (at tail (v ∷ stack))
  Runs-greedy_blank s tail v stack st y = rw st.splits (
      Runs-blank true st.first st.later stack (at tail (v ∷ stack))
        (rw st.splits at (Runs-greedy s tail v stack st y)))

  -- In a loop the evaluation goes on behind the factor.
  pub Runs-loop :
      (s tail : Bytes) (v : Bool) (stack : List Bool) (z : FeatureEval)
      → length tail < length s
      → Starts s
      → Yields s tail v
      → Runs false tail (v ∷ stack) z
      → Runs false s stack z
  Runs-loop s tail v stack z short st y h zero p = absurd (omega arith)
  Runs-loop s tail v stack z short st y h (suc f) p = rw st.splits (
      eval_round on f false st.first st.later stack (at tail (v ∷ stack)) (rw st.splits at st.opens)
        (rw st.splits at (y f stack p))
      ∙ h f (omega arith))

  pub operate-not :
      (self : Bool → FeatureEval → Option FeatureEval) (q tail : Bytes) (v : Bool)
      (stack : List Bool)
      → self true (at q stack) ≡ some (at tail (v ∷ stack))
      → operate on self (codes "not") (at q stack) ≡ some (at tail (not v ∷ stack))
  unfolding operate negate_top bytes_eq
  operate-not self q tail v stack e = rw e

  operate_and :
      (self : Bool → FeatureEval → Option FeatureEval) (q tail : Bytes) (v a : Bool)
      (stack : List Bool)
      → self true (at q (a ∷ stack)) ≡ some (at tail (v ∷ a ∷ stack))
      → operate on self (codes "and") (at q (a ∷ stack)) ≡ some (at tail ((a && v) ∷ stack))
  unfolding operate binary bytes_eq
  operate_and self q tail v a stack e = rw e (ground arith)

  pub operate_or :
      (self : Bool → FeatureEval → Option FeatureEval) (q tail : Bytes) (v a : Bool)
      (stack : List Bool)
      → self false (at q (a ∷ stack)) ≡ some (at tail (v ∷ a ∷ stack))
      → operate on self (codes "or") (at q (a ∷ stack)) ≡ some (at tail ((a || v) ∷ stack))
  unfolding operate binary bytes_eq
  operate_or self q tail v a stack e = rw e (ground arith)

  pub operate_open :
      (self : Bool → FeatureEval → Option FeatureEval) (y : FeatureEval)
      → operate on self (codes "(") y ≡ self false y
  unfolding operate bytes_eq
  operate_open self y = refl

  -- A closing parenthesis ends the call.
  pub Runs-close :
      (tail : Bytes) (stack : List Bool) → Runs false (b')' ∷ tail) stack (at tail stack)
  unfolding eval scan round bytes_eq
  Runs-close tail stack zero p = absurd (omega arith)
  Runs-close tail stack (suc f) p = rw (next_paren b')' tail refl) refl

  -- `and` and a factor behind a value.
  pub Runs-and :
      (q tail : Bytes) (v a : Bool) (stack : List Bool) (z : FeatureEval)
      → length tail < length q
      → Starts q
      → Yields q tail v
      → Runs false tail ((a && v) ∷ stack) z
      → Runs false (codes " and " ++ q) (a ∷ stack) z
  Runs-and q tail v a stack z short st y h zero p = absurd (omega arith)
  Runs-and q tail v a stack z short st y h (suc f) p =
      eval_round on f false b' ' (codes "and " ++ q) (a ∷ stack) (at tail ((a && v) ∷ stack))
        (rw (next_and q) and_ne_close)
        (rw (next_and q) (
          operate_and (eval on f) (b' ' ∷ q) tail v a stack
            (Runs-greedy_blank q tail v (a ∷ stack) st y f (omega arith))))
      ∙ h f (omega arith)

  -- The call ends with the text.
  pub Runs-end : (g : Bool) (stack : List Bool) → Runs g [] stack (at [] stack)
  unfolding eval scan
  Runs-end g stack zero p = absurd (omega arith)
  Runs-end g stack (suc f) p = refl

  -- `or` behind a value: the call that it makes goes on until it ends, at the end of the text or
  -- at a closing parenthesis.
  pub Runs-or :
      (c : ℕ) (s tail : Bytes) (v a : Bool) (stack : List Bool) (z : FeatureEval)
      → length tail ≤ length s
      → Runs false (c ∷ s) (a ∷ stack) (at tail (v ∷ a ∷ stack))
      → Runs false tail ((a || v) ∷ stack) z
      → Runs false (codes " or " ++ c ∷ s) (a ∷ stack) z
  Runs-or c s tail v a stack z short inner h zero p = absurd (omega arith)
  Runs-or c s tail v a stack z short inner h (suc f) p =
      eval_round on f false b' ' (codes "or " ++ c ∷ s) (a ∷ stack) (at tail ((a || v) ∷ stack))
        (rw (next_or (c ∷ s)) or_ne_close)
        (rw (next_or (c ∷ s)) (
          operate_or (eval on f) (b' ' ∷ c ∷ s) tail v a stack
            (Runs-blank false c s (a ∷ stack) (at tail (v ∷ a ∷ stack)) inner f (omega arith))))
      ∙ h f (omega arith)
