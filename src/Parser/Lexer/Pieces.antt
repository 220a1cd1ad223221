-- ===== src/Parser/Lexer/Pieces.antt =====
-- parser/lexer.go: the text of statements, and their tokens.
use c2g.Common.{
  ℕ, suc, ◌<◌, ◌≡◌, ◌⊎◌, inl, inr, ok, ◌∙◌, length, if◌then◌else◌, refl, Bool, true, false, List,
  [], ◌∷◌, ◌++◌, Bytes, codes, arith, All,
}
use mathlib.Core.Path.{subst}
use c2g.Parser.Lexer.Blank.{skip, blank}
use c2g.Parser.Lexer.{
  M, return, ident, string, curly_open, curly_close, semi, keyword, Token, Lexer,
}
use c2g.Parser.Lexer.Blank.Laws.{
  Gap, space, comment, line, GapIsValid, IsSolid, print_gaps, skip-gaps,
}
use c2g.Parser.Lexer.Accept.{begins, is_ident, accept_token, accept_string}
use c2g.Parser.Lexer.Begin.{
  name_and_curly, path_and_curly, name_and_end, bool_and_end, or_else, string_and_end, open_curly,
  end_of_statement,
}
use c2g.Parser.Lexer.Reads.{At, Finds, tok, bind_ok}
use c2g.Parser.Lexer.Words.{
  IsName, IsPlain, accept_ident-Finds, accept_string-Finds, accept_text-Finds, accept_text-refuses,
}
use c2g.Parser.Lexer.Keywords.{require-Finds, open_curly-Finds, end_of_statement-Finds}
use c2g.Parser.Lexer.Shapes.{Shape, block, path, named, flag, text, IsKeyword, follow}

-- A keyword with what follows it: `k x {` or `k x;`, with gaps behind each, where `x` is a name, a boolean
-- or a text in quotes. Or the end of a block.
pub data Piece : Type 0 where
  statement : Shape → Bytes → List Gap → Bytes → List Gap → List Gap → Piece
  close : List Gap → Piece

abbrev pub print_operand : Shape → Bytes → Bytes → Bytes
print_operand block x tail = x ++ tail
print_operand path x tail = b'"' ∷ (x ++ b'"' ∷ tail)
print_operand named x tail = x ++ tail
print_operand flag x tail = x ++ tail
print_operand text x tail = b'"' ∷ (x ++ b'"' ∷ tail)

abbrev pub end_byte : Shape → ℕ
end_byte block = b'{'
end_byte path = b'{'
end_byte named = b';'
end_byte flag = b';'
end_byte text = b';'

abbrev pub print_piece : Piece → Bytes → Bytes
print_piece (statement shape k g x g' g'') tail =
    k
    ++ b' '
      ∷ print_gaps g (print_operand shape x (print_gaps g' (end_byte shape ∷ print_gaps g'' tail)))
print_piece (close g) tail = b'}' ∷ print_gaps g tail

abbrev pub operand_token : Shape → Bytes → Token
operand_token block x = tok ident x
operand_token path x = tok string (b'"' ∷ (x ++ b'"' ∷ []))
operand_token named x = tok ident x
operand_token flag x = tok (keyword x) x
operand_token text x = tok string (b'"' ∷ (x ++ b'"' ∷ []))

abbrev pub end_token : Shape → Token
end_token block = tok curly_open (codes "{")
end_token path = tok curly_open (codes "{")
end_token named = tok semi (codes ";")
end_token flag = tok semi (codes ";")
end_token text = tok semi (codes ";")

abbrev pub piece_tokens : Piece → List Token
piece_tokens (statement shape k g x g' g'') =
    tok (keyword k) k ∷ operand_token shape x ∷ end_token shape ∷ []
piece_tokens (close g) = tok curly_close (codes "}") ∷ []

abbrev pub IsOperand : Shape → Bytes → Type 0
IsOperand block x = IsName x
IsOperand path x = IsPlain x
IsOperand named x = IsName x
IsOperand flag x = (x ≡ codes "true") ⊎ (x ≡ codes "false")
IsOperand text x = IsPlain x

abbrev pub PieceIsValid : Piece → Type 0
PieceIsValid (statement shape k g x g' g'') =
    IsKeyword shape k
    × (IsName k
        × (IsOperand shape x × (All GapIsValid g × (All GapIsValid g' × All GapIsValid g''))))
PieceIsValid (close g) = All GapIsValid g

pub IsName-IsSolid : (x s : Bytes) → IsName x → IsSolid (x ++ s)
IsName-IsSolid [] s h = absurd h
IsName-IsSolid (c ∷ []) [] h = ground arith
IsName-IsSolid (c ∷ []) (d ∷ s) h = ground arith
IsName-IsSolid (c ∷ d ∷ x) s h = let here = h.0 in ground arith

-- No gap begins with a rune of a name.
gaps-not_ident :
    (gs : List Gap) (c : ℕ) (s : Bytes)
    → All GapIsValid gs
    → is_ident c ≡ false
    → begins is_ident (print_gaps gs (c ∷ s)) ≡ false
gaps-not_ident [] c s h k = k
gaps-not_ident (space d ∷ gs) c s h k = let here = h.0 in ground arith
gaps-not_ident (comment x ∷ gs) c s h k = refl
gaps-not_ident (line x ∷ gs) c s h k = refl

pub operand-IsSolid :
    (shape : Shape) (x s : Bytes) → IsOperand shape x → IsSolid (print_operand shape x s)
operand-IsSolid block x s h = IsName-IsSolid x s h
operand-IsSolid path [] s h = (refl, refl)
operand-IsSolid path (c ∷ x) s h = (refl, refl)
operand-IsSolid named x s h = IsName-IsSolid x s h
operand-IsSolid flag x s (inl e) = rw e (refl, refl)
operand-IsSolid flag x s (inr e) = rw e (refl, refl)
operand-IsSolid text [] s h = (refl, refl)
operand-IsSolid text (c ∷ x) s h = (refl, refl)

end-IsSolid : (shape : Shape) (s : Bytes) → IsSolid (end_byte shape ∷ s)
end-IsSolid block [] = refl
end-IsSolid block (c ∷ s) = (refl, refl)
end-IsSolid path [] = refl
end-IsSolid path (c ∷ s) = (refl, refl)
end-IsSolid named [] = refl
end-IsSolid named (c ∷ s) = (refl, refl)
end-IsSolid flag [] = refl
end-IsSolid flag (c ∷ s) = (refl, refl)
end-IsSolid text [] = refl
end-IsSolid text (c ∷ s) = (refl, refl)

-- One of two actions, of which the first refuses or finds.
or_else-first :
    {l : Lexer} {ts : List Token} {s : Bytes} (m n : M Bool)
    → Finds m l ts s
    → Finds (or_else m n) l ts s
or_else-first {l} m n f = record {
  next = f.next;
  returns = bind_ok m (λ taken. if taken then return true else n) l f.next true f.returns;
  at = f.at;
}

or_else-second :
    {l : Lexer} {ts : List Token} {s : Bytes} (m n : M Bool)
    → m l ≡ ok (false, l)
    → Finds n l ts s
    → Finds (or_else m n) l ts s
or_else-second {l} m n e f = record {
  next = f.next;
  returns = bind_ok m (λ taken. if taken then return true else n) l l false e ∙ f.returns;
  at = f.at;
}

boolean-Finds :
    (x s s' : Bytes) (l : Lexer) (ts : List Token)
    → IsOperand flag x
    → At l ts (x ++ s)
    → skip blank s ≡ ok s'
    → suc (length ts) < 64
    → Finds
        (or_else (accept_token (keyword (codes "true"))) (accept_token (keyword (codes "false"))))
        l
        (ts ++ tok (keyword x) x ∷ [])
        s'
unfolding accept_token
boolean-Finds x s s' l ts (inl e) at w n = rw e (
    or_else-first (accept_token (keyword (codes "true"))) (accept_token (keyword (codes "false"))) (
      accept_text-Finds (keyword (codes "true")) (codes "true") s s' l ts
        (subst (λ y. At l ts (y ++ s)) e at) w n))
boolean-Finds x s s' l ts (inr e) at w n =
    let at' = subst (λ y. At l ts (y ++ s)) e at in
    rw e (
      or_else-second (accept_token (keyword (codes "true")))
        (accept_token (keyword (codes "false")))
        (accept_text-refuses (keyword (codes "true")) (codes "true") l (rw at'.rest_is refl))
        (accept_text-Finds (keyword (codes "false")) (codes "false") s s' l ts at' w n))

-- Behind the keyword, what follows it finds its operand and its end.
pub follow-Finds :
    (shape : Shape) (l : Lexer) (t : Token) (x : Bytes) (g' g'' : List Gap) (tail : Bytes)
    → IsOperand shape x
    → All GapIsValid g'
    → All GapIsValid g''
    → IsSolid tail
    → At l (t ∷ []) (print_operand shape x (print_gaps g' (end_byte shape ∷ print_gaps g'' tail)))
    → Finds (follow shape) l (t ∷ operand_token shape x ∷ end_token shape ∷ []) tail
unfolding name_and_curly path_and_curly name_and_end bool_and_end string_and_end
follow-Finds block l t x g' g'' tail v w z h at =
    let mid = skip-gaps g' (b'{' ∷ print_gaps g'' tail) w (end-IsSolid block _) in
    let f =
      accept_ident-Finds x _ _ l (t ∷ []) v (gaps-not_ident g' b'{' _ w refl) at mid
        (omega arith) in
    require-Finds (accept_token ident) "expected ident" open_curly l _ _ _ tail f
      (open_curly-Finds _ tail f.next _ f.at (skip-gaps g'' tail z h) (omega arith))
follow-Finds path l t x g' g'' tail v w z h at =
    let mid = skip-gaps g' (b'{' ∷ print_gaps g'' tail) w (end-IsSolid path _) in
    let f = accept_string-Finds x _ _ l (t ∷ []) v at mid refl (omega arith) in
    require-Finds accept_string "expected ident or string of a path" open_curly l _ _ _ tail f
      (open_curly-Finds _ tail f.next _ f.at (skip-gaps g'' tail z h) (omega arith))
follow-Finds named l t x g' g'' tail v w z h at =
    let mid = skip-gaps g' (b';' ∷ print_gaps g'' tail) w (end-IsSolid named _) in
    let f =
      accept_ident-Finds x _ _ l (t ∷ []) v (gaps-not_ident g' b';' _ w refl) at mid
        (omega arith) in
    require-Finds (accept_token ident) "expecting string" end_of_statement l _ _ _ tail f
      (end_of_statement-Finds _ tail f.next _ f.at (skip-gaps g'' tail z h) (omega arith))
follow-Finds flag l t x g' g'' tail v w z h at =
    let mid = skip-gaps g' (b';' ∷ print_gaps g'' tail) w (end-IsSolid flag _) in
    let f = boolean-Finds x _ _ l (t ∷ []) v at mid (omega arith) in
    require-Finds
      (or_else (accept_token (keyword (codes "true"))) (accept_token (keyword (codes "false"))))
      "expecting true or false" end_of_statement l _ _ _ tail f
      (end_of_statement-Finds _ tail f.next _ f.at (skip-gaps g'' tail z h) (omega arith))
follow-Finds text l t x g' g'' tail v w z h at =
    let mid = skip-gaps g' (b';' ∷ print_gaps g'' tail) w (end-IsSolid text _) in
    let f = accept_string-Finds x _ _ l (t ∷ []) v at mid refl (omega arith) in
    require-Finds accept_string "expecting string" end_of_statement l _ _ _ tail f
      (end_of_statement-Finds _ tail f.next _ f.at (skip-gaps g'' tail z h) (omega arith))
