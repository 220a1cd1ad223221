-- ===== src/Node/Matcher/Rounds.antt =====
-- node/path_matcher.go: single rounds of the loop of `parsex`.
use c2g.Common.{
  ℕ, zero, suc, ◌<◌, ◌≤◌, ◌≡◌, ◌≢◌, refl, true, List, [], ◌∷◌, ◌++◌, Bytes, codes, bytes_eq,
  bytes_eq_ne, none, some, arith, length, length-append,
}
use c2g.Node.Matcher.{
  Slice, is_delimiter, span_name, next, add_segment, add_sub_expression, Building, update, flush,
  Parsed, dispatch, parsex,
}
use c2g.Node.Matcher.Grammar.{NameBytes, IsName}

-- At every fuel that is large enough the parser goes from a text and what was built to `z`.
abbrev pub Runs : Bytes → Building → Parsed → Type 0
Runs s b z = (f : ℕ) → length s < f → parsex f s b ≡ some z

abbrev pub Delimited : Bytes → Type 0
Delimited [] = Unit
Delimited (c ∷ s) = is_delimiter c ≡ true

span_name-NameBytes :
    (x tail : Bytes) → NameBytes x → Delimited tail → span_name (x ++ tail) ≡ (x, tail)
unfolding span_name
span_name-NameBytes [] [] n d = refl
span_name-NameBytes [] (c ∷ s) n d = rw d
span_name-NameBytes (c ∷ x) tail n d = rw (n.0, span_name-NameBytes x tail n.1 d) refl

next_name :
    (c : ℕ) (x tail : Bytes)
    → NameBytes (c ∷ x)
    → Delimited tail
    → next (c ∷ (x ++ tail)) ≡ (c ∷ x, tail)
unfolding next span_name
next_name c x tail n d = ground (arith, span_name-NameBytes x tail n.1 d)

next_delimiter : (c : ℕ) (s : Bytes) → is_delimiter c ≡ true → next (c ∷ s) ≡ (c ∷ [], s)
unfolding next
next_delimiter c s h = rw h

not_delimiter : (c : ℕ) (x : Bytes) → is_delimiter c ≡ true → NameBytes x → x ≢ c ∷ []
not_delimiter c [] h n e = cc
not_delimiter c (d ∷ x) h n e = ground arith

pub Runs-end : (b : Building) → Runs [] b (flush b, [])
unfolding parsex
Runs-end b zero p = absurd (omega arith)
Runs-end b (suc f) p = refl

pub Runs-close : (tail : Bytes) (b : Building) → Runs (codes ")" ++ tail) b (flush b, tail)
unfolding parsex dispatch bytes_eq
Runs-close tail b zero p = absurd (omega arith)
Runs-close tail b (suc f) p = rw (next_delimiter b')' tail refl) refl

pub Runs-slash :
    (tail : Bytes) (b : Building) (z : Parsed) → Runs tail b z → Runs (codes "/" ++ tail) b z
unfolding parsex dispatch bytes_eq
Runs-slash tail b z h zero p = absurd (omega arith)
Runs-slash tail b z h (suc f) p = rw (next_delimiter b'/' tail refl) (h f (omega arith))

pub Runs-semicolon :
    (tail : Bytes) (b : Building) (z : Parsed)
    → Runs tail (flush b, some []) z
    → Runs (codes ";" ++ tail) b z
unfolding parsex dispatch bytes_eq
Runs-semicolon tail b z h zero p = absurd (omega arith)
Runs-semicolon tail b z h (suc f) p = rw (next_delimiter b';' tail refl) (h f (omega arith))

pub Runs-name :
    (x tail : Bytes) (b : Building) (z : Parsed)
    → IsName x
    → Delimited tail
    → Runs tail (update (add_segment x) b) z
    → Runs (x ++ tail) b z
unfolding parsex dispatch
Runs-name [] tail b z n d h f p = absurd (n.ne_nil refl)
Runs-name (c ∷ x) tail b z n d h zero p = absurd (omega arith)
Runs-name (c ∷ x) tail b z n d h (suc f) p =
    rw
      (
        next_name c x tail n.name_bytes d,
        bytes_eq_ne (c ∷ x) (codes "(") (not_delimiter b'(' (c ∷ x) refl n.name_bytes),
        bytes_eq_ne (c ∷ x) (codes ";") (not_delimiter b';' (c ∷ x) refl n.name_bytes),
        bytes_eq_ne (c ∷ x) (codes ")") (not_delimiter b')' (c ∷ x) refl n.name_bytes),
        bytes_eq_ne (c ∷ x) (codes "/") (not_delimiter b'/' (c ∷ x) refl n.name_bytes),
      )
      (h f (omega (arith, length-append x tail)))

pub Runs-group :
    (q tail : Bytes) (sub : List Slice) (b : Building) (z : Parsed)
    → length tail ≤ length q
    → Runs q ([], none) (sub, tail)
    → Runs tail (update (add_sub_expression sub) b) z
    → Runs (codes "(" ++ q) b z
unfolding parsex dispatch bytes_eq
Runs-group q tail sub b z short inner h zero p = absurd (omega arith)
Runs-group q tail sub b z short inner h (suc f) p =
    rw (next_delimiter b'(' q refl, inner f (omega arith)) (h f (omega arith))
