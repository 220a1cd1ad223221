-- ===== src/Node/Values/Keys.antt =====
-- node/value.go: lists of values, and the texts of keys.
use c2g.Common.{
  suc, ◌≤◌, ◌≡◌, refl, sym, ap, ◌∙◌, List, [], ◌∷◌, ◌++◌, Bytes, Option, none, some, map, join,
  length, ok, err, arith,
}
use mathlib.Core.List.{append-nil, append_assoc}
use c2g.Val.Dyn.{Dyn, string, Floats}
use c2g.Val.Value.{Value, to_string}
use c2g.Node.Values.{
  LeafType, Outcome, cons_outcome, new_value, new_values_by_string, new_values, encode_key,
  encode_rest,
}

-- Each text behind the first, twice.
abbrev pub doubled : List Bytes → List Bytes
doubled [] = []
doubled (k ∷ ks) = (k ++ k) ∷ doubled ks

module _ {F : Type 0} (lib : Floats F) where
  join-doubled :
      (print : List F → Bytes) (k : Bytes) (vs : List (Value F))
      → k ++ encode_rest lib print vs
        ≡ join (b',' ∷ []) (k ∷ doubled (map (to_string lib print) vs))
  join-doubled print k [] = append-nil k
  join-doubled print k (w ∷ vs) =
      let t = to_string lib print w in
      ap (λ s. k ++ (b',' ∷ s))
        (sym (append_assoc t t (encode_rest lib print vs)) ∙ join-doubled print (t ++ t) vs)

  -- The text of a key has the text of every value but the first twice.
  pub encode_key-doubled :
      (print : List F → Bytes) (v : Value F) (vs : List (Value F))
      → encode_key lib print (v ∷ vs)
        ≡ join (b',' ∷ []) (to_string lib print v ∷ doubled (map (to_string lib print) vs))
  unfolding encode_key
  encode_key-doubled print v vs = join-doubled print (to_string lib print v) vs

  cons_outcome-ok :
      {A : Type 0} (x : Outcome A) (o : Outcome (List A)) (ys : List A)
      → cons_outcome x o ≡ some (ok ys)
      → (xs : List A) × (o ≡ some (ok xs)) × (length ys ≡ suc (length xs))
  cons_outcome-ok none o ys e = ground arith
  cons_outcome-ok (some (err a)) o ys e = ground arith
  cons_outcome-ok (some (ok a)) none ys e = ground arith
  cons_outcome-ok (some (ok a)) (some (err b)) ys e = ground arith
  cons_outcome-ok (some (ok a)) (some (ok xs)) ys e =
      let same : a ∷ xs ≡ ys = ground arith in (xs, refl, rw (← same) refl)

  -- `NewValuesByString` makes as many values as there are leaves, however many texts there are.
  pub new_values_by_string-length :
      (ms : List LeafType) (objs : List Bytes) (vs : List (Option (Value F)))
      → new_values_by_string lib ms objs ≡ some (ok vs)
      → length vs ≡ length ms
  unfolding new_values_by_string
  new_values_by_string-length [] objs vs e = let none : [] ≡ vs = ground arith in rw (← none) refl
  new_values_by_string-length (m ∷ ms) [] vs e =
      let (xs, q, n) = cons_outcome-ok (some (ok none)) (new_values_by_string lib ms []) vs e in
      n ∙ ap suc (new_values_by_string-length ms [] xs q)
  new_values_by_string-length (m ∷ ms) (o ∷ objs) vs e =
      let (xs, q, n) =
        cons_outcome-ok (new_value lib m (string o)) (new_values_by_string lib ms objs) vs e in
      n ∙ ap suc (new_values_by_string-length ms objs xs q)

  -- `NewValues` returns only where there are at most as many values as leaves, and makes as many as
  -- there are leaves.
  pub new_values-length :
      (ms : List LeafType) (objs : List (Dyn F)) (vs : List (Option (Value F)))
      → new_values lib ms objs ≡ some (ok vs)
      → (length vs ≡ length ms) × (length objs ≤ length ms)
  unfolding new_values
  new_values-length [] [] vs e =
      let none : [] ≡ vs = ground arith in (rw (← none) refl, omega arith)
  new_values-length [] (o ∷ objs) vs e = ground arith
  new_values-length (m ∷ ms) [] vs e =
      let (xs, q, n) = cons_outcome-ok (some (ok none)) (new_values lib ms []) vs e in
      let h = new_values-length ms [] xs q in (n ∙ ap suc h.0, omega (arith, h.1))
  new_values-length (m ∷ ms) (o ∷ objs) vs e =
      let (xs, q, n) = cons_outcome-ok (new_value lib m o) (new_values lib ms objs) vs e in
      let h = new_values-length ms objs xs q in (n ∙ ap suc h.0, omega (arith, h.1))
