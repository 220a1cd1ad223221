-- ===== src/Parser/Lexer/Reads.antt =====
-- parser/lexer.go: what `emit` does to the state, and which of the functions `accept…` find their token.
use c2g.Common.{
  suc, ◌-◌, ◌<◌, ◌≡◌, refl, ap, ◌∙◌, Bool, true, List, [], ◌∷◌, ◌++◌, Bytes, none, some, length,
  length-append, take, arith, ok,
}
use c2g.Parser.Ring.{Ring, push}
use c2g.Parser.Ring.Queue.{Holds, push-Holds}
use c2g.Parser.Lexer.{TokenType, Token, Lexer, M, ◌>>=◌, return, token_text}
use c2g.Parser.Lexer.Blank.{skip, blank, accept_ws}
use c2g.Parser.Lexer.Accept.{push_token, emit, found}

-- With no error so far, the lexer stands in front of `s`, and these tokens are unread.
pub record At (l : Lexer) (ts : List Token) (s : Bytes) : Type 0 where
  pub start_is : l.start ≡ s
  pub rest_is : l.rest ≡ s
  pub holds : Holds l.ring ts
  pub size : length l.ring.slots ≡ 64
  pub is_running : l.running ≡ true
  pub no_error : l.last_error ≡ none

abbrev pub tok : TokenType → Bytes → Token
tok t x = record { typ = t; val = x }

-- An action finds these tokens, and leaves `s`.
pub record Finds (m : M Bool) (l : Lexer) (ts : List Token) (s : Bytes) : Type 0 where
  pub next : Lexer
  pub returns : m l ≡ ok (true, next)
  pub at : At next ts s

take-length : (x s : Bytes) → take (length x) (x ++ s) ≡ x
take-length [] s = refl
take-length (c ∷ x) s = ap (c ∷◌) (take-length x s)

take-append : (x s : Bytes) → take (length (x ++ s) - length s) (x ++ s) ≡ x
take-append x s =
    let n : length (x ++ s) - length s ≡ length x = omega (arith, length-append x s) in
    rw n (take-length x s)

pub bind_ok :
    {A B : Type 0} (m : M A) (f : A → M B) (l l' : Lexer) (a : A)
    → m l ≡ ok (a, l')
    → (m >>= f) l ≡ f a l'
bind_ok m f l l' a e = rw (e, ◌>>=◌) refl

token_text-eq : (l : Lexer) (x s : Bytes) → l.start ≡ x ++ s → l.rest ≡ s → token_text l ≡ x
unfolding token_text
token_text-eq l x s e r = rw (e, r) (take-append x s)

push_token-some :
    (t : Token) (l : Lexer) (r : Ring Token)
    → push t l.ring ≡ some r
    → push_token t l ≡ ok (tt, record l { ring = r })
unfolding push_token
push_token-some t l r e = rw (e, push_token) refl

accept_ws-skip :
    (l : Lexer) (s : Bytes)
    → skip blank l.rest ≡ ok s
    → accept_ws l ≡ ok (tt, record l { rest = s; start = s })
unfolding accept_ws
accept_ws-skip l s e = rw (e, accept_ws) refl

emit-eq :
    (t : TokenType) (l : Lexer)
    → emit t l
      ≡ (push_token (tok t (token_text l)) >>= λ _ l'. accept_ws (record l' { start = l'.rest })) l
unfolding emit
emit-eq t l = refl

emit-ok :
    (t : TokenType) (x s s' : Bytes) (l : Lexer) (r : Ring Token)
    → l.start ≡ x ++ s
    → l.rest ≡ s
    → push (tok t x) l.ring ≡ some r
    → skip blank s ≡ ok s'
    → emit t l ≡ ok (tt, record l { ring = r; rest = s'; start = s' })
emit-ok t x s s' l r a b p k =
    emit-eq t l
    ∙ bind_ok (push_token (tok t (token_text l)))
        (λ _ l'. accept_ws (record l' { start = l'.rest })) l (record l { ring = r }) tt
        (rw (token_text-eq l x s a b) (push_token-some (tok t x) l r p))
    ∙ accept_ws-skip (record l { ring = r; start = l.rest }) s' (rw b k)

-- Where the token `x` ends at `s`, `emit` pushes it, and leaves what `acceptWS` stops at.
pub emit-At :
    (t : TokenType) (x s s' : Bytes) (l : Lexer) (ts : List Token)
    → At l ts (x ++ s)
    → skip blank s ≡ ok s'
    → suc (length ts) < 64
    → (next : Lexer) × (emit t (record l { rest = s }) ≡ ok (tt, next))
      × At next (ts ++ tok t x ∷ []) s'
emit-At t x s s' l ts h k n =
    let (ring, pushed, holds, same) = push-Holds l.ring ts (tok t x) h.holds (rw h.size n) in
    (
      record l { ring = ring; rest = s'; start = s' },
      emit-ok t x s s' (record l { rest = s }) ring h.start_is refl pushed k,
      record {
        start_is = refl;
        rest_is = refl;
        holds = holds;
        size = same ∙ h.size;
        is_running = h.is_running;
        no_error = h.no_error;
      },
    )

pub found-Finds :
    (t : TokenType) (x s s' : Bytes) (l : Lexer) (ts : List Token)
    → At l ts (x ++ s)
    → skip blank s ≡ ok s'
    → suc (length ts) < 64
    → Finds (found t s) l (ts ++ tok t x ∷ []) s'
found-Finds t x s s' l ts h k n =
    let (next, e, at) = emit-At t x s s' l ts h k n in
    record {
      next = next;
      returns = bind_ok (emit t) (λ _. return true) (record l { rest = s }) next tt e;
      at = at;
    }
