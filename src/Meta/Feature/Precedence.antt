-- ===== src/Meta/Feature/Precedence.antt =====
-- A group that holds an `or` does not end at its parenthesis: the call of `eval` that `or` makes
-- takes the parenthesis, and the group goes on with what stands behind it.
use mathlib.Core.List.{append-nil}
use mathlib.Core.Path.{subst}
use c2g.Common.{
  suc, ◌<◌, ◌≡◌, refl, ap, ◌∙◌, Bool, false, not, ◌&&◌, ◌||◌, List, [], ◌∷◌, ◌++◌, Bytes, codes,
  some, arith, length, length-append, ok,
}
use c2g.Meta.Feature.{FeatureEval, evaluate, has_key, eval}
use c2g.Meta.Feature.Correct.{factor-Yields, evaluate_of_Runs}
use c2g.Meta.Feature.Grammar.{feature, IsName, print_factor, factor_holds}
use c2g.Meta.Feature.Rounds.{
  at, Delimited, Starts, print_factor-Starts, next_not, next_paren, open_ne_close, not_ne_close,
}
use c2g.Meta.Feature.Runs.{
  Runs, Yields, Runs-greedy_blank, Runs-loop, Runs-close, Runs-and, Runs-end, Runs-or, operate-not,
  operate_open,
}

-- `not (a or b) and c`
abbrev pub negated_group : Bytes → Bytes → Bytes → Bytes
negated_group a b c =
    codes "not "
    ++ (codes "(" ++ (a ++ (codes " or " ++ (b ++ (codes ")" ++ (codes " and " ++ c))))))

name-Starts : (x tail : Bytes) → IsName x → Delimited tail → Starts (x ++ tail)
unfolding print_factor
name-Starts x tail n d = print_factor-Starts (feature x) tail n d

length-name : (x tail : Bytes) → IsName x → length tail < length (x ++ tail)
length-name [] tail n = absurd (n.ne_nil refl)
length-name (c ∷ x) tail n = omega (arith, length-append x tail)

module _ (on : List Bytes) where
  name-Yields :
      (x tail : Bytes) → IsName x → Delimited tail → Yields on (x ++ tail) tail (has_key x on)
  unfolding print_factor factor_holds
  name-Yields x tail n d = factor-Yields on (feature x) tail n d

  group-Yields :
      (q tail : Bytes) (v : Bool)
      → ((stack : List Bool) → Runs on false q stack (at tail (v ∷ stack)))
      → Yields on (codes "(" ++ q) tail v
  group-Yields q tail v h f stack p =
      rw (next_paren b'(' q refl)
        (operate_open on (eval on f) (at q stack) ∙ h stack f (omega arith))

  negation-Yields :
      (s tail : Bytes) (v : Bool)
      → Starts s
      → Yields on s tail v
      → Yields on (codes "not " ++ s) tail (not v)
  negation-Yields s tail v st y f stack p = rw (next_not s) (
      operate-not on (eval on f) (b' ' ∷ s) tail v stack
        (Runs-greedy_blank on s tail v stack st y f (omega arith)))

  or_name-Runs :
      (b tail : Bytes) (a : Bool) (stack : List Bool) (z : FeatureEval)
      → IsName b
      → Runs on false tail ((a || has_key b on) ∷ stack) z
      → Runs on false (codes " or " ++ (b ++ (codes ")" ++ tail))) (a ∷ stack) z
  or_name-Runs b tail a stack z n h =
      let st = name-Starts b (codes ")" ++ tail) n refl in
      let longer = length-name b (codes ")" ++ tail) n in
      let shape : length (b ++ (codes ")" ++ tail)) ≡ suc (length st.later) = ap length st.splits in
      let inner =
        Runs-loop on (b ++ (codes ")" ++ tail)) (codes ")" ++ tail) (has_key b on) (a ∷ stack)
          (at tail (has_key b on ∷ a ∷ stack)) longer st (name-Yields b (codes ")" ++ tail) n refl)
          (Runs-close on tail (has_key b on ∷ a ∷ stack)) in
      rw st.splits (
        Runs-or on st.first st.later tail (has_key b on) a stack z (omega arith)
          (rw st.splits at inner) h)

  group-Runs :
      (a b c : Bytes) (stack : List Bool)
      → IsName a
      → IsName b
      → IsName c
      → Runs on false
          (a ++ (codes " or " ++ (b ++ (codes ")" ++ (codes " and " ++ (c ++ []))))))
          stack
          (at [] (((has_key a on || has_key b on) && has_key c on) ∷ stack))
  group-Runs a b c stack na nb nc =
      let last = codes " and " ++ (c ++ []) in
      let middle = codes " or " ++ (b ++ (codes ")" ++ last)) in
      let z = at [] (((has_key a on || has_key b on) && has_key c on) ∷ stack) in
      Runs-loop on (a ++ middle) middle (has_key a on) stack z (length-name a middle na)
        (name-Starts a middle na refl) (name-Yields a middle na refl)
        (or_name-Runs b last (has_key a on) stack z nb (
          Runs-and on (c ++ []) [] (has_key c on) (has_key a on || has_key b on) stack z
            (length-name c [] nc) (name-Starts c [] nc tt) (name-Yields c [] nc tt)
            (Runs-end on false (((has_key a on || has_key b on) && has_key c on) ∷ stack))))

group-Starts : (q : Bytes) → Starts (codes "(" ++ q)
group-Starts q = record {
  first = b'(';
  later = q;
  splits = refl;
  opens = rw (next_paren b'(' q refl) open_ne_close;
}

negation-Starts : (q : Bytes) → Starts (codes "not " ++ q)
negation-Starts q = record {
  first = b'n';
  later = codes "ot " ++ q;
  splits = refl;
  opens = rw (next_not q) not_ne_close;
}

-- With names a, b and c, `not (a or b) and c` is evaluated as `not ((a or b) and c)`.
pub evaluate-negated_group :
    (a b c : Bytes) (enabled : List Bytes)
    → IsName a
    → IsName b
    → IsName c
    → evaluate (negated_group a b c) enabled
      ≡ some (ok (not ((has_key a enabled || has_key b enabled) && has_key c enabled)))
evaluate-negated_group a b c on na nb nc =
    let q = a ++ (codes " or " ++ (b ++ (codes ")" ++ (codes " and " ++ (c ++ []))))) in
    let v = (has_key a on || has_key b on) && has_key c on in
    subst (λ t. evaluate (negated_group a b t) on ≡ some (ok (not v))) (append-nil c)
      (evaluate_of_Runs (negated_group a b (c ++ [])) on (not v) (
        Runs-loop on (codes "not " ++ (codes "(" ++ q)) [] (not v) [] (at [] (not v ∷ []))
          (omega arith) (negation-Starts (codes "(" ++ q))
          (negation-Yields on (codes "(" ++ q) [] v (group-Starts q)
            (group-Yields on q [] v (λ stack. group-Runs on a b c stack na nb nc)))
          (Runs-end on false (not v ∷ []))))
