-- ===== src/Node/Matcher/Parse.antt =====
-- `ParsePathExpression` yields the paths of an expression.
use mathlib.Core.List.{append_assoc, append-nil}
use mathlib.Core.Path.{subst}
use c2g.Common.{
  suc, ◌≤◌, ◌≡◌, refl, ◌∙◌, List, [], ◌∷◌, ◌++◌, Bytes, codes, none, some, arith, length,
  length-append,
}
use c2g.Node.Matcher.{
  Slice, add_segment, add_sub_expression, Building, update, flush, Parsed, product,
  parse_path_expression,
}
use c2g.Node.Matcher.Rounds.{
  Runs, Delimited, Runs-end, Runs-close, Runs-slash, Runs-semicolon, Runs-name, Runs-group,
}
use c2g.Node.Matcher.Grammar.{
  Item, name, group, Sequence, last, more, Alternatives, only, either, print_item, print_sequence,
  print_alternatives, sequence_paths, paths, IsName, ItemIsValid, SequenceIsValid, IsValid,
}
use c2g.Node.Matcher.Products.{add_item, add_sequence, add_sequence-nil}

-- A text is longer than what follows it.
mutual
  unfolding print_item print_sequence print_alternatives

  length-print_item : (i : Item) (tail : Bytes) → length tail ≤ length (print_item i tail)
  length-print_item (name x) tail = omega (arith, length-append x tail)
  length-print_item (group a) tail = omega (arith, length-print_alternatives a (codes ")" ++ tail))

  length-print_sequence :
      (q : Sequence) (tail : Bytes) → length tail ≤ length (print_sequence q tail)
  length-print_sequence (last i) tail = length-print_item i tail
  length-print_sequence (more i q) tail = omega (
    arith,
    length-print_item i (codes "/" ++ print_sequence q tail),
    length-print_sequence q tail,
  )

  length-print_alternatives :
      (a : Alternatives) (tail : Bytes) → length tail ≤ length (print_alternatives a tail)
  length-print_alternatives (only q) tail = length-print_sequence q tail
  length-print_alternatives (either q a) tail = omega (
    arith,
    length-print_sequence q (codes ";" ++ print_alternatives a tail),
    length-print_alternatives a tail,
  )

update-update :
    (g h : List Slice → List Slice) (b : Building) → update g (update h b) ≡ update (λ s. g (h s)) b
unfolding update
update-update g h (self, none) = refl
update-update g h (self, some split) = refl

-- Nothing has been built in the place where the next sequence is built.
abbrev IsFresh : Building → Type 0
IsFresh (self, none) = self ≡ []
IsFresh (self, some split) = split ≡ []

flush-update :
    (g : List Slice → List Slice) (b : Building) → IsFresh b → flush (update g b) ≡ flush b ++ g []
unfolding update flush
flush-update g (self, none) h = rw h
flush-update g (self, some split) h = rw (h, append-nil)

again_flush :
    (b : Building) (s t u : List Slice)
    → flush b ≡ s ++ t
    → flush (flush b, some []) ++ u ≡ s ++ (t ++ u)
unfolding flush
again_flush b s t u e = rw (append-nil, e, append_assoc) refl

mutual
  unfolding print_item print_sequence print_alternatives add_item add_sequence paths flush

  item-Runs :
      (i : Item) (tail : Bytes) (b : Building) (z : Parsed)
      → ItemIsValid i
      → Delimited tail
      → Runs tail (update (add_item i) b) z
      → Runs (print_item i tail) b z
  item-Runs (name x) tail b z v d h = Runs-name x tail b z v d h
  item-Runs (group a) tail b z v d h =
      Runs-group (print_alternatives a (codes ")" ++ tail)) tail (paths a) b z
        (omega (arith, length-print_alternatives a (codes ")" ++ tail)))
        (alternatives-Runs a (codes ")" ++ tail) ([], none) (paths a, tail) v refl refl
          (λ b' e.
            subst (λ (s : List Slice). Runs (codes ")" ++ tail) b' (s, tail)) e
              (Runs-close tail b')))
        h

  sequence-Runs :
      (q : Sequence) (tail : Bytes) (b : Building) (z : Parsed)
      → SequenceIsValid q
      → Delimited tail
      → Runs tail (update (add_sequence q) b) z
      → Runs (print_sequence q tail) b z
  sequence-Runs (last i) tail b z v d h = item-Runs i tail b z v d h
  sequence-Runs (more i q) tail b z v d h =
      item-Runs i (codes "/" ++ print_sequence q tail) b z v.0 refl (
        Runs-slash (print_sequence q tail) (update (add_item i) b) z (
          sequence-Runs q tail (update (add_item i) b) z v.1 d
            (rw (update-update (add_sequence q) (add_item i) b) h)))

  alternatives-Runs :
      (a : Alternatives) (tail : Bytes) (b : Building) (z : Parsed)
      → IsValid a
      → Delimited tail
      → IsFresh b
      → ((b' : Building) → flush b' ≡ flush b ++ paths a → Runs tail b' z)
      → Runs (print_alternatives a tail) b z
  alternatives-Runs (only q) tail b z v d fresh h = sequence-Runs q tail b z v.0 d (
      h (update (add_sequence q) b)
        (rw (flush-update (add_sequence q) b fresh, add_sequence-nil q v.1) refl))
  alternatives-Runs (either q a) tail b z v d fresh h =
      let b1 = update (add_sequence q) b in
      let built : flush b1 ≡ flush b ++ sequence_paths q =
        rw (flush-update (add_sequence q) b fresh, add_sequence-nil q v.1) refl in
      sequence-Runs q (codes ";" ++ print_alternatives a tail) b z v.0 refl (
        Runs-semicolon (print_alternatives a tail) b1 z (
          alternatives-Runs a tail (flush b1, some []) z v.2 d refl
            (λ b' e. h b' (e ∙ again_flush b1 (flush b) (sequence_paths q) (paths a) built))))

-- On the text of an expression whose names hold no delimiter and whose sequences begin with a
-- name, `ParsePathExpression` yields the paths that the expression stands for, in order, and
-- reads the whole text.
pub parse_path_expression-print :
    (a : Alternatives)
    → IsValid a
    → parse_path_expression (print_alternatives a []) ≡ some (paths a, [])
unfolding parse_path_expression
parse_path_expression-print a v =
    alternatives-Runs a [] ([], none) (paths a, []) v tt refl
      (λ b' e. subst (λ (s : List Slice). Runs [] b' (s, [])) e (Runs-end b'))
      (suc (length (print_alternatives a []))) (omega arith)

Runs-last : (x : Bytes) → IsName x → Runs x ([], none) ((x ∷ []) ∷ [], [])
unfolding add_segment flush update
Runs-last x n =
    subst (λ (s : Bytes). Runs s ([], none) ((x ∷ []) ∷ [], [])) (append-nil x)
      (Runs-name x [] ([], none) ((x ∷ []) ∷ [], []) n tt (Runs-end ((x ∷ []) ∷ [], none)))

-- A group at the start of an expression is dropped: the paths are those of the text behind it.
pub parse_leading_group :
    (a : Alternatives) (x : Bytes)
    → IsValid a
    → IsName x
    → parse_path_expression (codes "(" ++ print_alternatives a (codes ")" ++ x))
      ≡ some ((x ∷ []) ∷ [], [])
unfolding parse_path_expression update add_sub_expression product
parse_leading_group a x v n =
    let whole : Runs (codes "(" ++ print_alternatives a (codes ")" ++ x)) ([], none)
        ((x ∷ []) ∷ [], []) =
      Runs-group (print_alternatives a (codes ")" ++ x)) x (paths a) ([], none) ((x ∷ []) ∷ [], [])
        (omega (arith, length-print_alternatives a (codes ")" ++ x)))
        (alternatives-Runs a (codes ")" ++ x) ([], none) (paths a, x) v refl refl
          (λ b' e. subst (λ (s : List Slice). Runs (codes ")" ++ x) b' (s, x)) e (Runs-close x b')))
        (Runs-last x n) in
    whole (suc (length (codes "(" ++ print_alternatives a (codes ")" ++ x)))) (omega arith)
