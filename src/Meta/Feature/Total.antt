-- ===== src/Meta/Feature/Total.antt =====
-- `Evaluate` ends: each token shortens the text that is left.
use c2g.Common.{
  ℕ, zero, suc, ◌<◌, ◌≤◌, ◌≡◌, ◌≢◌, refl, Bool, true, false, List, [], ◌∷◌, Bytes, codes, bytes_eq,
  Option, none, some, arith, length, if◌then◌else◌, Result,
}
use c2g.Meta.Feature.{
  FeatureEval, eat_ws, word, token, next, operate, round, scan, eval, evaluate, conclude, binary,
  negate_top, ◌>>=◌, and_bool, or_bool,
}

length-eat_ws : (s : Bytes) → length (eat_ws s) ≤ length s
unfolding eat_ws
length-eat_ws [] = omega arith
length-eat_ws (c ∷ s) = ground (arith, length-eat_ws s)

length-word : (s : Bytes) → length (word s).1 ≤ length s
unfolding word
length-word [] = omega arith
length-word (c ∷ s) = ground (arith, length-word s)

length-next_word : (c : ℕ) (s : Bytes) → c ≢ b' ' → length (token (c ∷ s)).1 ≤ length s
unfolding token word
length-next_word c s h = ground (arith, length-word s)

pub next_blank : (s : Bytes) → next (b' ' ∷ s) ≡ next s
unfolding next
next_blank s = refl

-- `next` takes at least one byte.
pub length-next : (c : ℕ) (s : Bytes) → length (next (c ∷ s)).1 < length (c ∷ s)
unfolding next
length-next c [] = ground (arith, length-next_word c [])
length-next c (d ∷ s) = ground (arith, length-next d s, length-next_word c (d ∷ s))

binary-rest : (op : Bool → Bool → Bool) (y : FeatureEval) → (binary op y).rest ≡ y.rest
unfolding binary
binary-rest op y = ground arith

negate_top-rest : (y : FeatureEval) → (negate_top y).rest ≡ y.rest
unfolding negate_top
negate_top-rest y = ground arith

-- A call that ended, with at most `n` bytes left.
abbrev pub Ends : ℕ → Option FeatureEval → Type 0
Ends n none = ⊥
Ends n (some z) = length z.rest ≤ n

Ends-bind :
    (n : ℕ) (o : Option FeatureEval) (f : FeatureEval → Option FeatureEval)
    → Ends n o
    → ((z : FeatureEval) → length z.rest ≤ n → Ends n (f z))
    → Ends n (o >>= f)
Ends-bind n none f h k = h
Ends-bind n (some z) f h k = k z h

Ends-if :
    (n : ℕ) (b : Bool) (x y : Option FeatureEval)
    → Ends n x
    → Ends n y
    → Ends n (if b then x else y)
Ends-if n true x y h k = h
Ends-if n false x y h k = k

Ends-mono : (n m : ℕ) (o : Option FeatureEval) → n ≤ m → Ends n o → Ends m o
Ends-mono n m none h k = k
Ends-mono n m (some z) h k = omega arith

module _ (features : List Bytes) (n : ℕ) (self : Bool → FeatureEval → Option FeatureEval)
    (ends : (g : Bool) (y : FeatureEval)
      → length y.rest < n
      → Ends (length y.rest) (self g y)) where
  operate-Ends :
      (tok : Bytes) (y : FeatureEval)
      → length y.rest < n
      → Ends (length y.rest) (operate features self tok y)
  unfolding operate
  operate-Ends tok y h =
      let m = length y.rest in
      Ends-if m (bytes_eq tok (codes "(")) _ _ (ends false y h) (
        Ends-if m (bytes_eq tok (codes "and")) _ _
          (Ends-bind m (self true y) _ (ends true y h) (λ z p. rw (binary-rest and_bool z) p))
          (Ends-if m (bytes_eq tok (codes "not")) _ _
            (Ends-bind m (self true y) _ (ends true y h) (λ z p. rw (negate_top-rest z) p))
            (Ends-if m (bytes_eq tok (codes "or")) _ _
              (Ends-bind m (self false y) _ (ends false y h) (λ z p. rw (binary-rest or_bool z) p))
              (omega arith))))

  round-Ends :
      (g : Bool) (tok : Bytes) (y : FeatureEval)
      → length y.rest < n
      → Ends (length y.rest) (round features self g tok y)
  unfolding round
  round-Ends g tok y h =
      let m = length y.rest in
      Ends-if m (bytes_eq tok (codes ")")) _ _ (omega arith) (
        Ends-bind m (operate features self tok y) _ (operate-Ends tok y h) (λ z p.
          Ends-if m g _ _ p (Ends-mono (length z.rest) m (self g z) p (ends g z (omega arith)))))

  scan-Ends :
      (g : Bool) (s : Bytes) (y : FeatureEval)
      → length s ≤ n
      → Ends (length s) (scan features self g s (record y { rest = s }))
  unfolding scan
  scan-Ends g [] y h = omega arith
  scan-Ends g (c ∷ s) y h =
      let short = length-next c s in
      Ends-mono (length (next (c ∷ s)).1) (length (c ∷ s)) _ (omega arith)
        (round-Ends g (next (c ∷ s)).0 (record y { rest = (next (c ∷ s)).1 }) (omega arith))

pub eval-Ends :
    (features : List Bytes) (f : ℕ) (g : Bool) (y : FeatureEval)
    → length y.rest < f
    → Ends (length y.rest) (eval features f g y)
unfolding eval
eval-Ends features zero g y h = absurd (omega arith)
eval-Ends features (suc f) g y h =
    scan-Ends features f (eval features f) (eval-Ends features f) g y.rest y (omega arith)

conclude_total :
    (n : ℕ) (o : Option FeatureEval)
    → Ends n o
    → (r : Result (Unit {0}) Bool) × (conclude o ≡ some r)
unfolding conclude
conclude_total n none h = absurd h
conclude_total n (some y) h = (_, refl)

-- `Evaluate` returns, on every text: the fuel is enough.
pub evaluate-total :
    (expr : Bytes) (enabled : List Bytes)
    → (r : Result (Unit {0}) Bool) × (evaluate expr enabled ≡ some r)
unfolding evaluate
evaluate-total expr enabled = conclude_total (length expr) _ (
    eval-Ends enabled (suc (length expr)) false (record { rest = expr; stack = []; failed = false })
      (omega arith))
