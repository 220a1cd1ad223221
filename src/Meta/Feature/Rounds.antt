-- ===== src/Meta/Feature/Rounds.antt =====
-- The tokens of the texts of `Grammar`, and one round of the evaluator's loop.
use c2g.Common.{
  ℕ, suc, ◌≡◌, ◌≢◌, refl, ◌∙◌, Bool, true, false, ◌||◌, List, [], ◌∷◌, ◌++◌, Bytes, codes,
  bytes_eq_ne, Option, some, arith, ◌==◌, if◌then◌else◌,
}
use c2g.Meta.Feature.{FeatureEval, word, next, is_paren, operate, round, scan, eval, has_key, push}
use c2g.Meta.Feature.Total.{next_blank}
use c2g.Meta.Feature.Grammar.{
  Factor, feature, negation, group, print_factor, print_term, NameBytes, IsName, FactorNames,
}

-- A state with no error.
abbrev pub at : Bytes → List Bool → FeatureEval
at rest stack = record { rest = rest; stack = stack; failed = false }

-- What may stand behind a name.
abbrev pub Delimited : Bytes → Type 0
Delimited [] = Unit
Delimited (c ∷ s) = (c == b' ' || is_paren c) ≡ true

word-NameBytes : (x tail : Bytes) → NameBytes x → Delimited tail → word (x ++ tail) ≡ (x, tail)
unfolding word
word-NameBytes [] [] n d = refl
word-NameBytes [] (c ∷ s) n d = rw d
word-NameBytes (c ∷ x) tail n d = rw (n.0, word-NameBytes x tail n.1 d) refl

pub next-NameBytes :
    (c : ℕ) (x tail : Bytes)
    → NameBytes (c ∷ x)
    → Delimited tail
    → next (c ∷ (x ++ tail)) ≡ (c ∷ x, tail)
unfolding next word
next-NameBytes c x tail n d = ground (arith, word-NameBytes x tail n.1 d)

not_paren : (c : ℕ) (x : Bytes) → is_paren c ≡ true → NameBytes x → x ≢ c ∷ []
not_paren c [] h n e = cc
not_paren c (d ∷ x) h n e = ground arith

-- A token that is no operator and no parenthesis is the name of a feature.
pub operate_name :
    (on : List Bytes) (self : Bool → FeatureEval → Option FeatureEval) (x : Bytes) (y : FeatureEval)
    → IsName x
    → operate on self x y ≡ some (push (has_key x on) y)
unfolding operate
operate_name on self x y n = rw (
  bytes_eq_ne x (codes "(") (not_paren b'(' x refl n.name_bytes),
  bytes_eq_ne x (codes "and") n.not_and,
  bytes_eq_ne x (codes "not") n.not_not,
  bytes_eq_ne x (codes "or") n.not_or,
)

-- One round of the loop on a token that does not close a group.
pub eval_round :
    (on : List Bytes) (f : ℕ) (g : Bool) (c : ℕ) (s : Bytes) (stack : List Bool) (z : FeatureEval)
    → (next (c ∷ s)).0 ≢ codes ")"
    → operate on (eval on f) (next (c ∷ s)).0 (at (next (c ∷ s)).1 stack) ≡ some z
    → eval on (suc f) g (at (c ∷ s) stack) ≡ (if g then some z else eval on f g z)
unfolding eval scan round
eval_round on f g c s stack z h e = rw (bytes_eq_ne _ _ h, e)

-- The text of a factor is not empty, and its first token closes no group.
pub record Starts (s : Bytes) : Type 0 where
  pub first : ℕ
  pub later : Bytes
  pub splits : s ≡ first ∷ later
  pub opens : (next s).0 ≢ codes ")"

pub next_not : (q : Bytes) → next (codes "not " ++ q) ≡ (codes "not", b' ' ∷ q)
next_not q = next-NameBytes b'n' (codes "ot") (b' ' ∷ q) (refl, (refl, (refl, tt))) refl

pub next_paren : (c : ℕ) (s : Bytes) → is_paren c ≡ true → next (c ∷ s) ≡ (c ∷ [], s)
unfolding next
next_paren c s h = ground arith

pub next_and : (q : Bytes) → next (codes " and " ++ q) ≡ (codes "and", b' ' ∷ q)
next_and q =
    next_blank (codes "and " ++ q)
    ∙ next-NameBytes b'a' (codes "nd") (b' ' ∷ q) (refl, (refl, (refl, tt))) refl

pub next_or : (q : Bytes) → next (codes " or " ++ q) ≡ (codes "or", b' ' ∷ q)
next_or q =
    next_blank (codes "or " ++ q)
    ∙ next-NameBytes b'o' (codes "r") (b' ' ∷ q) (refl, (refl, tt)) refl

pub not_ne_close : codes "not" ≢ codes ")"
not_ne_close e = cc

pub open_ne_close : codes "(" ≢ codes ")"
open_ne_close e = ground arith

pub print_factor-Starts :
    (p : Factor) (tail : Bytes) → FactorNames p → Delimited tail → Starts (print_factor p tail)
unfolding print_factor
print_factor-Starts (feature []) tail n d = absurd (n.ne_nil refl)
print_factor-Starts (feature (c ∷ x)) tail n d = record {
  first = c;
  later = x ++ tail;
  splits = refl;
  opens = rw (next-NameBytes c x tail n.name_bytes d) (not_paren b')' (c ∷ x) refl n.name_bytes);
}
print_factor-Starts (negation p) tail n d = record {
  first = b'n';
  later = codes "ot " ++ print_factor p tail;
  splits = refl;
  opens = rw (next_not (print_factor p tail)) not_ne_close;
}
print_factor-Starts (group t) tail n d = record {
  first = b'(';
  later = print_term t (codes ")" ++ tail);
  splits = refl;
  opens = rw (next_paren b'(' (print_term t (codes ")" ++ tail)) refl) open_ne_close;
}
