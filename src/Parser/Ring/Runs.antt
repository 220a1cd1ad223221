-- ===== src/Parser/Ring/Runs.antt =====
-- parser/lexer.go: `pushToken` and `popToken` in any order, as `lexBegin` and `nextToken` call them.
use c2g.Common.{
  ℕ, suc, ◌-◌, ◌<◌, ◌≡◌, refl, sym, ap, ◌∙◌, true, false, List, [], ◌∷◌, ◌++◌, Option, none, some,
  length, length-append, arith, ◌==◌,
}
use mathlib.Core.List.{append_assoc, append-nil}
use mathlib.Core.Path.{subst}
use c2g.Parser.Ring.{Ring, push, pop}
use c2g.Parser.Ring.Queue.{Holds, push-Holds, pop-Holds, Holds-empty}

-- A token that is emitted, and a call for the next one.
pub data Call {ℓ} (A : Type ℓ) : Type ℓ where
  emitted : A → Call A
  asked : Call A

module _ {ℓ} {A : Type ℓ} where
  -- The calls one by one: the tokens that are given out, and the ring that is left. On an empty ring
  -- `nextToken` does not come to `popToken`.
  unfoldable pub run : List (Call A) → Ring A → Option (List A × Ring A)
  unfolding push pop
  run [] r = some ([], r)
  run (emitted t ∷ cs) r = elim (push t r) [ none ↦ none | some r' ↦ run cs r' ]
  run (asked ∷ cs) r =
      let idle = run cs r in
      elim (r.head == r.tail) [
        | true ↦ idle
        | false ↦ elim (pop r) [
          | none ↦ none
          | some (t, r') ↦ elim (run cs r') [ none ↦ none | some (ts, r'') ↦ some (t ∷ ts, r'') ]
        ]
      ]

  -- With `n` tokens unread, the calls never leave more than `most` unread.
  abbrev pub Fits : ℕ → ℕ → List (Call A) → Type 0
  Fits most n [] = Unit
  Fits most n (emitted t ∷ cs) = (n < most) × Fits most (suc n) cs
  Fits most n (asked ∷ cs) = Fits most (n - 1) cs

  abbrev pub emitted_by : List (Call A) → List A
  emitted_by [] = []
  emitted_by (emitted t ∷ cs) = t ∷ emitted_by cs
  emitted_by (asked ∷ cs) = emitted_by cs

  -- What a run gives out and leaves, in the order of `all`.
  pub record Delivers (cs : List (Call A)) (r : Ring A) (all : List A) : Type ℓ where
    pub given : List A
    pub left : List A
    pub ring : Ring A
    pub runs : run cs r ≡ some (given, ring)
    pub holds : Holds ring left
    pub in_order : given ++ left ≡ all

  length-snoc : (ts : List A) (t : A) → length (ts ++ t ∷ []) ≡ suc (length ts)
  length-snoc ts t = omega (arith, length-append ts (t ∷ []))

  -- In any order of calls that never leaves more unread than the slots but one, `pushToken` and
  -- `popToken` do not panic, and the tokens that are given out, followed by those that are left, are
  -- those that were unread followed by those that were emitted, in order: none is lost, none is given
  -- out twice.
  pub run-Delivers :
      (cs : List (Call A)) (r : Ring A) (ts : List A)
      → Holds r ts
      → Fits (length r.slots - 1) (length ts) cs
      → Delivers cs r (ts ++ emitted_by cs)
  unfolding run
  run-Delivers [] r ts h k = record {
    given = [];
    left = ts;
    ring = r;
    runs = refl;
    holds = h;
    in_order = sym (append-nil ts);
  }
  run-Delivers (emitted t ∷ cs) r ts h k =
      let (r', e, h', same) = push-Holds r ts t h (omega (arith, k.0)) in
      let fit : Fits (length r'.slots - 1) (length (ts ++ t ∷ [])) cs =
        rw (same, length-snoc ts t) k.1 in
      let d = run-Delivers cs r' (ts ++ t ∷ []) h' fit in
      record {
        given = d.given;
        left = d.left;
        ring = d.ring;
        runs = rw (e, run) d.runs;
        holds = d.holds;
        in_order = d.in_order ∙ append_assoc ts (t ∷ []) (emitted_by cs);
      }
  run-Delivers (asked ∷ cs) r [] h k =
      let d = run-Delivers cs r [] h k in
      record {
        given = d.given;
        left = d.left;
        ring = d.ring;
        runs = rw (Holds-empty r [] h, run) d.runs;
        holds = d.holds;
        in_order = d.in_order;
      }
  run-Delivers (asked ∷ cs) r (t ∷ ts) h k =
      let (r', e, h', same) = pop-Holds r t ts h in
      let full : (r.head == r.tail) ≡ false = Holds-empty r (t ∷ ts) h ∙ ground arith in
      let d =
        run-Delivers cs r' ts h'
          (rw same (subst (λ n. Fits (length r.slots - 1) n cs) (omega arith) k)) in
      record {
        given = t ∷ d.given;
        left = d.left;
        ring = d.ring;
        runs = rw (full, e, d.runs, run) refl;
        holds = d.holds;
        in_order = ap (t ∷◌) d.in_order;
      }
