-- ===== src/Parser/Lexer/Words.antt =====
-- parser/lexer.go: `acceptToken` in front of a fixed text and of a name, and `acceptString` in front of a
-- quoted text.
use c2g.Common.{
  ℕ, suc, ◌<◌, ◌≡◌, refl, ◌∙◌, Bool, true, false, ◌||◌, List, [], ◌∷◌, ◌++◌, Bytes, codes, length,
  arith, ◌==◌, if◌then◌else◌, ok, All,
}
use mathlib.Core.List.{append_assoc}
use c2g.Parser.Lexer.{
  TokenType, ident, string, keyword, Token, Lexer, M, ◌>>=◌, return, has_prefix, drop_prefix,
}
use c2g.Parser.Lexer.Blank.{skip, blank}
use c2g.Parser.Lexer.Accept.{
  emit, found, accept_text, accept_ident, after, begins, is_ident, accept_token, accept_string,
  accept_string_from, quoted_end, close_quoted,
}
use c2g.Parser.Lexer.Reads.{At, Finds, tok, found-Finds, emit-At, bind_ok}

has_prefix-append : (k s : Bytes) → has_prefix k (k ++ s) ≡ true
has_prefix-append [] s = refl
has_prefix-append (c ∷ k) s = ground (arith, has_prefix-append k s)

drop_prefix-append : (k s : Bytes) → drop_prefix k (k ++ s) ≡ s
drop_prefix-append [] s = refl
drop_prefix-append (c ∷ k) s = drop_prefix-append k s

-- An action that does what another does.
pub Finds-of :
    {m m' : M Bool} {l : Lexer} {ts : List Token} {s : Bytes}
    → m l ≡ m' l
    → Finds m' l ts s
    → Finds m l ts s
Finds-of e f = record { next = f.next; returns = e ∙ f.returns; at = f.at }

accept_text-found :
    (t : TokenType) (k s : Bytes) (l : Lexer) → l.rest ≡ k ++ s → accept_text t k l ≡ found t s l
unfolding accept_text
accept_text-found t k s l e =
    rw (e, has_prefix-append k s, drop_prefix-append k s, accept_text) refl

pub accept_text-refuses :
    (t : TokenType) (k : Bytes) (l : Lexer)
    → has_prefix k l.rest ≡ false
    → accept_text t k l ≡ ok (false, l)
unfolding accept_text
accept_text-refuses t k l e = rw (e, accept_text) refl

-- The text, and then what `acceptWS` stops at.
pub accept_text-Finds :
    (t : TokenType) (k s s' : Bytes) (l : Lexer) (ts : List Token)
    → At l ts (k ++ s)
    → skip blank s ≡ ok s'
    → suc (length ts) < 64
    → Finds (accept_text t k) l (ts ++ tok t k ∷ []) s'
accept_text-Finds t k s s' l ts h w n =
    Finds-of (accept_text-found t k s l h.rest_is) (found-Finds t k s s' l ts h w n)

-- The runes of a name, and one more of them.
abbrev pub IsName : Bytes → Type 0
IsName [] = ⊥
IsName (c ∷ s) = (is_ident c ≡ true) × All (λ d. is_ident d ≡ true) s

after-append :
    (test : ℕ → Bool) (x s : Bytes)
    → All (λ c. test c ≡ true) x
    → begins test s ≡ false
    → after test (x ++ s) ≡ s
unfolding after
after-append test [] [] h k = refl
after-append test [] (d ∷ s) h k = rw (k, after) refl
after-append test (c ∷ x) s h k = rw (h.0, after) (after-append test x s h.1 k)

accept_ident-found :
    (x s : Bytes) (l : Lexer)
    → IsName x
    → begins is_ident s ≡ false
    → l.rest ≡ x ++ s
    → accept_ident l ≡ found ident s l
unfolding accept_ident
accept_ident-found [] s l h k e = absurd h
accept_ident-found (c ∷ x) s l h k e =
    rw (e, h.0, after-append is_ident x s h.1 k, after, accept_ident) refl

pub accept_ident-Finds :
    (x s s' : Bytes) (l : Lexer) (ts : List Token)
    → IsName x
    → begins is_ident s ≡ false
    → At l ts (x ++ s)
    → skip blank s ≡ ok s'
    → suc (length ts) < 64
    → Finds (accept_token ident) l (ts ++ tok ident x ∷ []) s'
unfolding accept_token
accept_ident-Finds x s s' l ts v k h w n =
    Finds-of (accept_ident-found x s l v k h.rest_is) (found-Finds ident x s s' l ts h w n)

-- The runes of a text in double quotes, but for the escaped ones.
abbrev pub IsPlain : Bytes → Type 0
IsPlain s = All (λ c. (c == 0 || (c == b'\\' || c == b'"')) ≡ false) s

quoted_end-plain : (x s : Bytes) → IsPlain x → quoted_end b'"' (x ++ b'"' ∷ s) ≡ (true, s)
unfolding quoted_end
quoted_end-plain [] [] h = refl
quoted_end-plain [] (c ∷ s) h = refl
quoted_end-plain (c ∷ []) s h = ground (arith, quoted_end-plain [] s tt)
quoted_end-plain (c ∷ d ∷ x) s h = ground (arith, quoted_end-plain (d ∷ x) s h.1)

accept_string-quoted :
    (x s : Bytes) (l : Lexer)
    → IsPlain x
    → l.rest ≡ b'"' ∷ (x ++ b'"' ∷ s)
    → accept_string l ≡ close_quoted (accept_string_from (length l.rest)) (true, s) l
unfolding accept_string accept_string_from
accept_string-quoted x s l h e = rw (e, quoted_end-plain x s h, accept_string) refl

after_string : M Bool → M Bool
after_string again =
    accept_text (keyword (codes "+")) (codes "+") >>= λ plus. if plus then again else return true

close_quoted-eq :
    (again : M Bool) (s : Bytes) (l : Lexer)
    → close_quoted again (true, s) l
      ≡ (emit string >>= λ _. after_string again) (record l { rest = s })
unfolding close_quoted after_string
close_quoted-eq again s l = refl

after_string-ends :
    (again : M Bool) (l : Lexer)
    → has_prefix (codes "+") l.rest ≡ false
    → after_string again l ≡ ok (true, l)
unfolding after_string
after_string-ends again l p =
    bind_ok (accept_text (keyword (codes "+")) (codes "+"))
      (λ plus. if plus then again else return true) l l false
      (accept_text-refuses (keyword (codes "+")) (codes "+") l p)

close_quoted-At :
    (again : M Bool) (x s s' : Bytes) (l : Lexer) (ts : List Token)
    → At l ts (x ++ s)
    → skip blank s ≡ ok s'
    → has_prefix (codes "+") s' ≡ false
    → suc (length ts) < 64
    → Finds (close_quoted again (true, s)) l (ts ++ tok string x ∷ []) s'
close_quoted-At again x s s' l ts h w p n =
    let (next, e, at) = emit-At string x s s' l ts h w n in
    record {
      next = next;
      returns =
          close_quoted-eq again s l
          ∙ bind_ok (emit string) (λ _. after_string again) (record l { rest = s }) next tt e
          ∙ after_string-ends again next (rw at.rest_is p);
      at = at;
    }

-- A text in double quotes with no escapes, not followed by a plus.
pub accept_string-Finds :
    (x s s' : Bytes) (l : Lexer) (ts : List Token)
    → IsPlain x
    → At l ts (b'"' ∷ (x ++ b'"' ∷ s))
    → skip blank s ≡ ok s'
    → has_prefix (codes "+") s' ≡ false
    → suc (length ts) < 64
    → Finds accept_string l (ts ++ tok string (b'"' ∷ (x ++ b'"' ∷ [])) ∷ []) s'
accept_string-Finds x s s' l ts v h w p n =
    let whole : At l ts ((b'"' ∷ (x ++ b'"' ∷ [])) ++ s) = rw (append_assoc x (b'"' ∷ []) s) h in
    Finds-of (accept_string-quoted x s l v h.rest_is) (
      close_quoted-At (accept_string_from (length l.rest)) (b'"' ∷ (x ++ b'"' ∷ [])) s s' l ts whole
        w p n)
