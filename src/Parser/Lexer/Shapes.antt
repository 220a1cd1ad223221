-- ===== src/Parser/Lexer/Shapes.antt =====
-- parser/lexer.go: the statements that `lexBegin` reads, by the list that holds their keyword.
use c2g.Common.{
  ◌≡◌, refl, ◌∙◌, Bool, true, List, [], ◌∷◌, ◌++◌, Bytes, codes, none, some, arith, ok,
}
use c2g.Parser.Lexer.{keyword, Lexer, M}
use c2g.Parser.Lexer.Blank.{skip, blank}
use c2g.Parser.Lexer.Begin.{
  first_of, named_blocks, path_blocks, bare_blocks, named_statements, number_statements,
  bool_statements, string_statements, name_and_curly, path_and_curly, name_and_end, string_and_end,
  open_curly, begin_deviate, begin_strings, begin_bools, begin_numbers, begin_status, begin_named,
  begin_deviates, begin_bare, begin_paths, begin_blocks, begin_ordered, number_and_end,
  bool_and_end,
}
use c2g.Parser.Lexer.Reads.{At, tok}
use c2g.Parser.Lexer.Keywords.{pick, no_blanks, pick-blank, first_of-none, first_of-some}

-- The lists in front of that of the named statements, and in front of that of the statements with a text.
abbrev pub early : List (List Bytes)
early = named_blocks ∷ path_blocks ∷ bare_blocks ∷ (codes "deviate" ∷ []) ∷ []

abbrev pub middle : List (List Bytes)
middle = named_statements ∷ (codes "status" ∷ []) ∷ number_statements ∷ bool_statements ∷ []

-- Those in front of the list of the statements with a boolean.
abbrev pub numeric : List (List Bytes)
numeric = named_statements ∷ (codes "status" ∷ []) ∷ number_statements ∷ []

-- No list has a keyword that `k` begins with.
abbrev pub NoneOf : List (List Bytes) → Bytes → Type 0
NoneOf [] k = Unit
NoneOf (ks ∷ kss) k = (pick ks k ≡ none) × NoneOf kss k

-- A keyword of the list, which `lexBegin` does not take for another one.
pub data Shape : Type 0 where
  block path named flag text : Shape

abbrev pub IsKeyword : Shape → Bytes → Type 0
IsKeyword block k = pick named_blocks k ≡ some k
IsKeyword path k = (pick named_blocks k ≡ none) × (pick path_blocks k ≡ some k)
IsKeyword named k = NoneOf early k × (pick named_statements k ≡ some k)
IsKeyword flag k = NoneOf early k × (NoneOf numeric k × (pick bool_statements k ≡ some k))
IsKeyword text k = NoneOf early k × (NoneOf middle k × (pick string_statements k ≡ some k))

-- What stands behind the keyword.
abbrev pub follow : Shape → M Bool
follow block = name_and_curly
follow path = path_and_curly
follow named = name_and_end
follow flag = bool_and_end
follow text = string_and_end

passes-list :
    (ks : List Bytes) (body otherwise : M Bool) (l : Lexer) (k r : Bytes)
    → no_blanks ks ≡ true
    → l.rest ≡ k ++ b' ' ∷ r
    → pick ks k ≡ none
    → first_of ks body otherwise l ≡ otherwise l
passes-list ks body otherwise l k r b e h =
    first_of-none ks body otherwise l (rw e (pick-blank ks k r b ∙ h))

-- The keyword is taken, and what follows it goes on.
pub record Taken (m body : M Bool) (l : Lexer) (k s : Bytes) : Type 0 where
  pub next : Lexer
  pub goes_on : m l ≡ body next
  pub at : At next (tok (keyword k) k ∷ []) s

takes-list :
    (ks : List Bytes) (body otherwise : M Bool) (l : Lexer) (k r s : Bytes)
    → no_blanks ks ≡ true
    → At l [] (k ++ b' ' ∷ r)
    → skip blank (b' ' ∷ r) ≡ ok s
    → pick ks k ≡ some k
    → Taken (first_of ks body otherwise) body l k s
takes-list ks body otherwise l k r s b at w h =
    let (next, e, at') =
      first_of-some ks body otherwise l k (b' ' ∷ r) s [] (rw at.rest_is (pick-blank ks k r b ∙ h))
        at w (omega arith) in
    record { next = next; goes_on = e; at = at' }

Taken-of :
    {m m' body : M Bool} {l : Lexer} {k s : Bytes}
    → m l ≡ m' l
    → Taken m' body l k s
    → Taken m body l k s
Taken-of e t = record { next = t.next; goes_on = e ∙ t.goes_on; at = t.at }

begin_blocks-passes :
    (l : Lexer) (k r : Bytes)
    → l.rest ≡ k ++ b' ' ∷ r
    → NoneOf early k
    → begin_blocks l ≡ begin_named l
unfolding begin_blocks begin_paths begin_bare begin_deviates named_blocks path_blocks bare_blocks
begin_blocks-passes l k r e h =
    passes-list named_blocks name_and_curly begin_paths l k r refl e h.0
    ∙ passes-list path_blocks path_and_curly begin_bare l k r refl e h.1.0
    ∙ passes-list bare_blocks open_curly begin_deviates l k r refl e h.1.1.0
    ∙ passes-list (codes "deviate" ∷ []) begin_deviate begin_named l k r refl e h.1.1.1.0

begin_named-passes :
    (l : Lexer) (k r : Bytes)
    → l.rest ≡ k ++ b' ' ∷ r
    → NoneOf middle k
    → begin_named l ≡ begin_strings l
unfolding begin_named begin_status begin_numbers begin_bools named_statements number_statements
    bool_statements
begin_named-passes l k r e h =
    passes-list named_statements name_and_end begin_status l k r refl e h.0
    ∙ passes-list (codes "status" ∷ []) _ begin_numbers l k r refl e h.1.0
    ∙ passes-list number_statements number_and_end begin_bools l k r refl e h.1.1.0
    ∙ passes-list bool_statements bool_and_end begin_strings l k r refl e h.1.1.1.0

begin_named-flag :
    (l : Lexer) (k r : Bytes)
    → l.rest ≡ k ++ b' ' ∷ r
    → NoneOf numeric k
    → begin_named l ≡ begin_bools l
unfolding begin_named begin_status begin_numbers named_statements number_statements
begin_named-flag l k r e h =
    passes-list named_statements name_and_end begin_status l k r refl e h.0
    ∙ passes-list (codes "status" ∷ []) _ begin_numbers l k r refl e h.1.0
    ∙ passes-list number_statements number_and_end begin_bools l k r refl e h.1.1.0

begin_bools-Taken :
    (l : Lexer) (k r s : Bytes)
    → pick bool_statements k ≡ some k
    → At l [] (k ++ b' ' ∷ r)
    → skip blank (b' ' ∷ r) ≡ ok s
    → Taken begin_bools bool_and_end l k s
unfolding begin_bools bool_statements
begin_bools-Taken l k r s h at w =
    takes-list bool_statements bool_and_end begin_strings l k r s refl at w h

begin_blocks-path :
    (l : Lexer) (k r : Bytes)
    → l.rest ≡ k ++ b' ' ∷ r
    → pick named_blocks k ≡ none
    → begin_blocks l ≡ begin_paths l
unfolding begin_blocks named_blocks
begin_blocks-path l k r e h = passes-list named_blocks name_and_curly begin_paths l k r refl e h

begin_paths-Taken :
    (l : Lexer) (k r s : Bytes)
    → pick path_blocks k ≡ some k
    → At l [] (k ++ b' ' ∷ r)
    → skip blank (b' ' ∷ r) ≡ ok s
    → Taken begin_paths path_and_curly l k s
unfolding begin_paths path_blocks
begin_paths-Taken l k r s h at w =
    takes-list path_blocks path_and_curly begin_bare l k r s refl at w h

begin_named-Taken :
    (l : Lexer) (k r s : Bytes)
    → pick named_statements k ≡ some k
    → At l [] (k ++ b' ' ∷ r)
    → skip blank (b' ' ∷ r) ≡ ok s
    → Taken begin_named name_and_end l k s
unfolding begin_named named_statements
begin_named-Taken l k r s h at w =
    takes-list named_statements name_and_end begin_status l k r s refl at w h

begin_strings-Taken :
    (l : Lexer) (k r s : Bytes)
    → pick string_statements k ≡ some k
    → At l [] (k ++ b' ' ∷ r)
    → skip blank (b' ' ∷ r) ≡ ok s
    → Taken begin_strings string_and_end l k s
unfolding begin_strings string_statements
begin_strings-Taken l k r s h at w =
    takes-list string_statements string_and_end begin_ordered l k r s refl at w h

begin_blocks-block :
    (l : Lexer) (k r s : Bytes)
    → pick named_blocks k ≡ some k
    → At l [] (k ++ b' ' ∷ r)
    → skip blank (b' ' ∷ r) ≡ ok s
    → Taken begin_blocks name_and_curly l k s
unfolding begin_blocks named_blocks
begin_blocks-block l k r s h at w =
    takes-list named_blocks name_and_curly begin_paths l k r s refl at w h

-- `lexBegin` takes the keyword for what it is, and goes on with what follows it.
pub begin_blocks-Taken :
    (shape : Shape) (l : Lexer) (k r s : Bytes)
    → IsKeyword shape k
    → At l [] (k ++ b' ' ∷ r)
    → skip blank (b' ' ∷ r) ≡ ok s
    → Taken begin_blocks (follow shape) l k s
begin_blocks-Taken block l k r s h at w = begin_blocks-block l k r s h at w
begin_blocks-Taken path l k r s h at w =
    Taken-of (begin_blocks-path l k r at.rest_is h.0) (begin_paths-Taken l k r s h.1 at w)
begin_blocks-Taken named l k r s h at w =
    Taken-of (begin_blocks-passes l k r at.rest_is h.0) (begin_named-Taken l k r s h.1 at w)
begin_blocks-Taken flag l k r s h at w =
    Taken-of (begin_blocks-passes l k r at.rest_is h.0 ∙ begin_named-flag l k r at.rest_is h.1.0)
      (begin_bools-Taken l k r s h.1.1 at w)
begin_blocks-Taken text l k r s h at w =
    Taken-of (begin_blocks-passes l k r at.rest_is h.0 ∙ begin_named-passes l k r at.rest_is h.1.0)
      (begin_strings-Taken l k r s h.1.1 at w)
