-- ===== src/Parser/Lexer/Keywords.antt =====
-- parser/lexer.go: which keyword `lexBegin` takes, and the functions that follow it.
use c2g.Common.{
  suc, ◌<◌, ◌≡◌, ◌⊎◌, inl, inr, refl, ◌∙◌, Bool, true, false, not, ◌&&◌, List, [], ◌∷◌, ◌++◌, Bytes,
  codes, Option, none, some, length, arith, ◌==◌, if◌then◌else◌, ok,
}
use Prim.Native.String.{String}
use c2g.Parser.Lexer.{curly_open, semi, keyword, Token, Lexer, M, ◌>>=◌, return, has_prefix, error}
use c2g.Parser.Lexer.Blank.{skip, blank}
use c2g.Parser.Lexer.Accept.{accept_text, accept_token}
use c2g.Parser.Lexer.Begin.{first_of, require, or_else, open_curly, end_of_statement}
use c2g.Parser.Lexer.Reads.{At, Finds, tok, bind_ok}
use c2g.Parser.Lexer.Words.{accept_text-Finds, accept_text-refuses}

-- The first keyword of a list that the text begins with.
abbrev pub pick : List Bytes → Bytes → Option Bytes
pick [] s = none
pick (k ∷ ks) s = let rest = pick ks s in if has_prefix k s then some k else rest

-- No keyword of the list holds a blank.
abbrev pub no_blank : Bytes → Bool
no_blank [] = true
no_blank (c ∷ s) = not (c == b' ') && no_blank s

abbrev pub no_blanks : List Bytes → Bool
no_blanks [] = true
no_blanks (k ∷ ks) = no_blank k && no_blanks ks

has_prefix-blank :
    (p k s : Bytes) → no_blank p ≡ true → has_prefix p (k ++ b' ' ∷ s) ≡ has_prefix p k
has_prefix-blank [] k s h = refl
has_prefix-blank (c ∷ p) [] s h = ground arith
has_prefix-blank (c ∷ p) (d ∷ k) s h = ground (arith, has_prefix-blank p k s)

pub pick-blank :
    (ks : List Bytes) (k s : Bytes) → no_blanks ks ≡ true → pick ks (k ++ b' ' ∷ s) ≡ pick ks k
pick-blank [] k s h = refl
pick-blank (p ∷ ks) k s h = ground (arith, has_prefix-blank p k s, pick-blank ks k s)

first_of-eq :
    (k : Bytes) (ks : List Bytes) (body otherwise : M Bool) (l : Lexer)
    → first_of (k ∷ ks) body otherwise l
      ≡ (accept_text (keyword k) k >>= λ taken. if taken then body else first_of ks body otherwise)
          l
unfolding first_of accept_token
first_of-eq k ks body otherwise l = refl

pub first_of-none :
    (ks : List Bytes) (body otherwise : M Bool) (l : Lexer)
    → pick ks l.rest ≡ none
    → first_of ks body otherwise l ≡ otherwise l
unfolding first_of
first_of-none [] body otherwise l h = refl
first_of-none (k ∷ ks) body otherwise l h =
    let refused : has_prefix k l.rest ≡ false = ground arith in
    first_of-eq k ks body otherwise l
    ∙ bind_ok (accept_text (keyword k) k)
        (λ taken. if taken then body else first_of ks body otherwise) l l false
        (accept_text-refuses (keyword k) k l refused)
    ∙ first_of-none ks body otherwise l (ground arith)

pick-cons :
    (k p : Bytes) (ks : List Bytes) (s : Bytes)
    → pick (p ∷ ks) s ≡ some k
    → (p ≡ k) ⊎ ((has_prefix p s ≡ false) × (pick ks s ≡ some k))
pick-cons k p ks s h = ground arith

-- The keyword is taken, and what follows it goes on.
pub first_of-some :
    (ks : List Bytes) (body otherwise : M Bool) (l : Lexer) (k s s' : Bytes) (ts : List Token)
    → pick ks l.rest ≡ some k
    → At l ts (k ++ s)
    → skip blank s ≡ ok s'
    → suc (length ts) < 64
    → (next : Lexer) × (first_of ks body otherwise l ≡ body next)
      × At next (ts ++ tok (keyword k) k ∷ []) s'
first_of-some [] body otherwise l k s s' ts h at w n = ground arith
first_of-some (p ∷ ks) body otherwise l k s s' ts h at w n = elim (pick-cons k p ks l.rest h) [
  | inl same ↦
      let f = accept_text-Finds (keyword p) p s s' l ts (rw same at) w n in
      (
        f.next,
        first_of-eq p ks body otherwise l
            ∙ bind_ok (accept_text (keyword p) p)
                (λ taken. if taken then body else first_of ks body otherwise) l f.next true
                f.returns,
        rw (← same) f.at,
      )
  | inr (refused, later) ↦
      let (next, e, at') = first_of-some ks body otherwise l k s s' ts later at w n in
      (
        next,
        first_of-eq p ks body otherwise l
            ∙ bind_ok (accept_text (keyword p) p)
                (λ taken. if taken then body else first_of ks body otherwise) l l false
                (accept_text-refuses (keyword p) p l refused)
            ∙ e,
        at',
      )
]

-- One action, and then another.
pub require-Finds :
    (m : M Bool) (msg : String) (next : M Bool) (l : Lexer) (ts ts' : List Token) (s s' : Bytes)
    → (f : Finds m l ts s) → Finds next f.next ts' s'
    → Finds (require m msg next) l ts' s'
require-Finds m msg next l ts ts' s s' f g = record {
  next = g.next;
  returns =
      bind_ok m (λ taken. if taken then next else error (codes msg)) l f.next true f.returns
      ∙ g.returns;
  at = g.at;
}

return-Finds : (l : Lexer) (ts : List Token) (s : Bytes) → At l ts s → Finds (return true) l ts s
return-Finds l ts s h = record { next = l; returns = refl; at = h }

-- The opening of a block.
pub open_curly-Finds :
    (s s' : Bytes) (l : Lexer) (ts : List Token)
    → At l ts (b'{' ∷ s)
    → skip blank s ≡ ok s'
    → suc (length ts) < 64
    → Finds open_curly l (ts ++ tok curly_open (codes "{") ∷ []) s'
unfolding accept_token
open_curly-Finds s s' l ts h w n =
    let f = accept_text-Finds curly_open (codes "{") s s' l ts h w n in
    require-Finds (accept_token curly_open) "expected {" (return true) l _ _ s' s' f
      (return-Finds f.next _ s' f.at)

-- The end of a statement.
pub end_of_statement-Finds :
    (s s' : Bytes) (l : Lexer) (ts : List Token)
    → At l ts (b';' ∷ s)
    → skip blank s ≡ ok s'
    → suc (length ts) < 64
    → Finds end_of_statement l (ts ++ tok semi (codes ";") ∷ []) s'
unfolding end_of_statement accept_token
end_of_statement-Finds s s' l ts h w n =
    let f = accept_text-Finds semi (codes ";") s s' l ts h w n in
    let g : Finds (or_else (accept_token semi) (accept_token curly_open)) l
        (ts ++ tok semi (codes ";") ∷ []) s' =
      record {
        next = f.next;
        returns =
            bind_ok (accept_token semi)
              (λ taken. if taken then return true else accept_token curly_open) l f.next true
              f.returns;
        at = f.at;
      } in
    require-Finds (or_else (accept_token semi) (accept_token curly_open))
      "expecting semicolon or '{'" (return true) l _ _ s' s' g (return-Finds f.next _ s' f.at)
