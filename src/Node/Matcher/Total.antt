-- ===== src/Node/Matcher/Total.antt =====
-- node/path_matcher.go: `ParsePathExpression` returns on every text.
use c2g.Common.{
  ℕ, zero, suc, ◌<◌, ◌≤◌, ◌≡◌, refl, List, [], ◌∷◌, Bytes, codes, bytes_eq, Option, none, some,
  length, Bool-cases, inl, inr, arith,
}
use c2g.Node.Matcher.{
  Slice, is_delimiter, span_name, next, Building, Parsed, dispatch, parsex, parse_path_expression,
  add_segment, add_sub_expression, update, flush,
}

-- There is a result, and `n` bytes at most are left.
abbrev Ends : ℕ → Option Parsed → Type 0
Ends n none = ⊥
Ends n (some (slices, rest)) = length rest ≤ n

Ends-mono : (m n : ℕ) (o : Option Parsed) → m ≤ n → Ends m o → Ends n o
Ends-mono m n none h e = e
Ends-mono m n (some (slices, rest)) h e = omega arith

length-span_name : (s : Bytes) → length (span_name s).1 ≤ length s
unfolding span_name
length-span_name [] = omega arith
length-span_name (c ∷ s) = elim (Bool-cases (is_delimiter c)) [
  | inl stop ↦ rw stop (omega arith)
  | inr go ↦ rw go (omega (arith, length-span_name s))
]

length-next : (c : ℕ) (s : Bytes) → length (next (c ∷ s)).1 ≤ length s
unfolding next span_name
length-next c s = elim (Bool-cases (is_delimiter c)) [
  | inl stop ↦ rw stop (omega arith)
  | inr go ↦ rw go (length-span_name s)
]

-- After a group the loop goes on with what the group left.
group-Ends :
    (n : ℕ) (rest : Bytes) (o : Option Parsed) (again : Bytes → List Slice → Option Parsed)
    → ((r : Bytes) (sub : List Slice) → length r ≤ n → Ends (length r) (again r sub))
    → length rest ≤ n
    → Ends (length rest) o
    → Ends (length rest) (elim o [ none ↦ none | some (sub, rest') ↦ again rest' sub ])
group-Ends n rest none again h p e = e
group-Ends n rest (some (sub, rest')) again h p e =
    Ends-mono (length rest') (length rest) (again rest' sub) e (h rest' sub (omega arith))

dispatch-Ends :
    (n : ℕ) (nested : Bytes → Option Parsed) (again : Bytes → Building → Option Parsed)
    (t rest : Bytes) (b : Building)
    → ((r : Bytes) → length r ≤ n → Ends (length r) (nested r))
    → ((r : Bytes) (b' : Building) → length r ≤ n → Ends (length r) (again r b'))
    → length rest ≤ n
    → Ends (length rest) (dispatch nested again t rest b)
unfolding dispatch
dispatch-Ends n nested again t rest b g h p = elim (Bool-cases (bytes_eq t (codes "("))) [
  | inl e1 ↦ rw e1 (
      group-Ends n rest (nested rest) (λ r sub. again r (update (add_sub_expression sub) b))
        (λ r sub. h r (update (add_sub_expression sub) b)) p (g rest p))
  | inr e1 ↦ elim (Bool-cases (bytes_eq t (codes ";"))) [
    | inl e2 ↦ rw (e1, e2) (h rest (flush b, some []) p)
    | inr e2 ↦ elim (Bool-cases (bytes_eq t (codes ")"))) [
      | inl e3 ↦ rw (e1, e2, e3) (omega arith)
      | inr e3 ↦ elim (Bool-cases (bytes_eq t (codes "/"))) [
        | inl e4 ↦ rw (e1, e2, e3, e4) (h rest b p)
        | inr e4 ↦ rw (e1, e2, e3, e4) (h rest (update (add_segment t) b) p)
      ]
    ]
  ]
]

parsex-Ends : (f : ℕ) (s : Bytes) (b : Building) → length s < f → Ends (length s) (parsex f s b)
unfolding parsex
parsex-Ends zero s b h = absurd (omega arith)
parsex-Ends (suc f) [] b h = omega arith
parsex-Ends (suc f) (c ∷ s) b h =
    let short = length-next c s in
    Ends-mono (length (next (c ∷ s)).1) (length (c ∷ s)) _ (omega arith) (
      dispatch-Ends (length s) (λ r. parsex f r ([], none)) (parsex f) (next (c ∷ s)).0
        (next (c ∷ s)).1 b (λ r p. parsex-Ends f r ([], none) (omega arith))
        (λ r b' p. parsex-Ends f r b' (omega arith)) short)

some_result : (n : ℕ) (o : Option Parsed) → Ends n o → (z : Parsed) × (o ≡ some z)
some_result n none h = absurd h
some_result n (some z) h = (z, refl)

-- `ParsePathExpression` returns, on every text: the fuel is enough.
pub parse_path_expression-total :
    (selector : Bytes) → (z : Parsed) × (parse_path_expression selector ≡ some z)
unfolding parse_path_expression
parse_path_expression-total selector =
    some_result (length selector) _
      (parsex-Ends (suc (length selector)) selector ([], none) (omega arith))
