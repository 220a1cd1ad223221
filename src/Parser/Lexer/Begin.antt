-- ===== src/Parser/Lexer/Begin.antt =====
-- parser/lexer.go: `lexBegin`, which reads one statement, or the end of one.
use c2g.Common.{
  ℕ, zero, suc, Bool, true, false, List, [], ◌∷◌, Bytes, codes, length, if◌then◌else◌, ok, err, map,
}
use Prim.Native.String.{String}
use c2g.Parser.Lexer.{
  ident, string, number, extension, curly_open, curly_close, semi, keyword, forever, M, ◌>>=◌,
  return, error,
}
use c2g.Parser.Lexer.Accept.{accept_token, accept_string, accept_digits}

-- `for _, ttype := range types { if l.acceptToken(ttype) { return … } }`
unfoldable pub first_of : List Bytes → M Bool → M Bool → M Bool
first_of [] body otherwise = otherwise
first_of (k ∷ ks) body otherwise =
    let rest = first_of ks body otherwise in
    accept_token (keyword k) >>= λ taken. if taken then body else rest

-- `if !l.accept…() { return l.error(msg) }`, then the rest
abbrev pub require : M Bool → String → M Bool → M Bool
require m msg next = m >>= λ taken. if taken then next else error (codes msg)

-- `m() || n()`
abbrev pub or_else : M Bool → M Bool → M Bool
or_else m n = m >>= λ taken. if taken then return true else n

-- `acceptEndOfStatement`. A result true stands for the state `lexBegin`, false for nil.
unfoldable pub end_of_statement : M Bool
unfolding accept_token
end_of_statement =
    require (or_else (accept_token semi) (accept_token curly_open)) "expecting semicolon or '{'"
      (return true)

-- The lists of keywords, by the format of their statements.
unfoldable pub named_blocks : List Bytes
named_blocks = map codes (
    "notification" ∷ "container" ∷ "leaf-list" ∷ "submodule" ∷ "grouping" ∷ "typedef" ∷ "action"
    ∷ "module" ∷ "choice" ∷ "leaf" ∷ "list" ∷ "case" ∷ "rpc" ∷ [])

unfoldable pub path_blocks : List Bytes
path_blocks = map codes ("deviation" ∷ "augment" ∷ "refine" ∷ [])

unfoldable pub bare_blocks : List Bytes
bare_blocks = map codes ("input" ∷ "output" ∷ [])

unfoldable pub deviate_types : List Bytes
deviate_types = map codes ("replace" ∷ "add" ∷ "delete" ∷ [])

unfoldable pub named_statements : List Bytes
named_statements = map codes (
    "not-supported" ∷ "extension" ∷ "identity" ∷ "include" ∷ "anydata" ∷ "feature" ∷ "anyxml"
    ∷ "import" ∷ "type" ∷ "enum" ∷ "bit" ∷ "uses" ∷ "base" ∷ [])

unfoldable pub statuses : List Bytes
statuses = map codes ("current" ∷ "obsolete" ∷ "deprecated" ∷ [])

unfoldable pub number_statements : List Bytes
number_statements = map codes ("default" ∷ "value" ∷ "position" ∷ "fraction-digits" ∷ [])

unfoldable pub bool_statements : List Bytes
bool_statements = map codes ("mandatory" ∷ "config" ∷ "yin-element" ∷ "require-instance" ∷ [])

unfoldable pub string_statements : List Bytes
string_statements = map codes (
    "error-message" ∷ "error-app-tag" ∷ "organization" ∷ "yang-version" ∷ "description"
    ∷ "if-feature" ∷ "namespace" ∷ "reference" ∷ "revision" ∷ "argument" ∷ "presence" ∷ "contact"
    ∷ "pattern" ∷ "prefix" ∷ "length" ∷ "unique" ∷ "range" ∷ "units" ∷ "type" ∷ "path" ∷ "when"
    ∷ "must" ∷ "key" ∷ [])

unfoldable pub orders : List Bytes
orders = map codes ("system" ∷ "user" ∷ [])

unfoldable pub limits : List Bytes
limits = map codes ("max-elements" ∷ "min-elements" ∷ [])

-- The loop behind the name of an extension. At the end of the text every round takes an empty string,
-- and the loop does not end; otherwise a round takes a rune at least, so that the fuel is enough.
unfoldable pub extension_args : ℕ → M Bool
unfolding accept_token
extension_args zero = λ l. err forever
extension_args (suc f) =
    let again = extension_args f in
    accept_token semi >>= λ taken.
    if taken
    then return true
    else (accept_token curly_open >>= λ opened.
        if opened
        then return true
        else (accept_token number >>= λ counted.
            if counted
            then again
            else (accept_token string >>= λ said.
                if said then again else error (codes "expecting token"))))

abbrev pub open_curly : M Bool
open_curly = require (accept_token curly_open) "expected {" (return true)

-- `deviate`
unfoldable pub begin_deviate : M Bool
unfolding first_of end_of_statement deviate_types
begin_deviate = accept_token (keyword (codes "not-supported")) >>= λ taken.
    if taken
    then (accept_token curly_open >>= λ opened. if opened then return true else end_of_statement)
    else first_of deviate_types open_curly (error (codes "expected deviate type"))

-- What follows a keyword: a name, the text of a string, and so on.
unfoldable pub name_and_curly : M Bool
unfolding accept_token
name_and_curly = require (accept_token ident) "expected ident" open_curly

unfoldable pub path_and_curly : M Bool
unfolding accept_string accept_token
path_and_curly = require accept_string "expected ident or string of a path" open_curly

unfoldable pub name_and_end : M Bool
unfolding accept_token end_of_statement
name_and_end = require (accept_token ident) "expecting string" end_of_statement

unfoldable pub number_and_end : M Bool
unfolding accept_digits accept_string end_of_statement
number_and_end =
    require (or_else (accept_digits true) accept_string) "expecting number or string"
      end_of_statement

unfoldable pub bool_and_end : M Bool
unfolding accept_token end_of_statement
bool_and_end =
    require
      (or_else (accept_token (keyword (codes "true"))) (accept_token (keyword (codes "false"))))
      "expecting true or false" end_of_statement

unfoldable pub string_and_end : M Bool
unfolding accept_string end_of_statement
string_and_end = require accept_string "expecting string" end_of_statement

unfoldable pub limit_and_end : M Bool
unfolding accept_token accept_digits end_of_statement
limit_and_end =
    require (or_else (accept_token (keyword (codes "unbounded"))) (accept_digits false))
      "expecting integer" end_of_statement

-- The parts of `lexBegin`, from its end to its start.
unfoldable pub begin_other : M Bool
unfolding extension_args
begin_other = accept_token curly_close >>= λ closed.
    if closed
    then return true
    else (accept_token extension >>= λ taken.
        if taken
        then (λ l. extension_args (suc (length l.rest)) l)
        else error (codes "unknown statement"))

unfoldable pub begin_limits : M Bool
unfolding limits first_of limit_and_end begin_other
begin_limits = first_of limits limit_and_end begin_other

unfoldable pub begin_ordered : M Bool
unfolding orders first_of end_of_statement begin_limits
begin_ordered =
    first_of (codes "ordered-by" ∷ [])
      (first_of orders end_of_statement (error (codes "unexpected order-by type"))) begin_limits

unfoldable pub begin_strings : M Bool
unfolding string_statements first_of string_and_end begin_ordered
begin_strings = first_of string_statements string_and_end begin_ordered

unfoldable pub begin_bools : M Bool
unfolding bool_statements first_of bool_and_end begin_strings
begin_bools = first_of bool_statements bool_and_end begin_strings

unfoldable pub begin_numbers : M Bool
unfolding number_statements first_of number_and_end begin_bools
begin_numbers = first_of number_statements number_and_end begin_bools

unfoldable pub begin_status : M Bool
unfolding statuses first_of end_of_statement begin_numbers
begin_status =
    first_of (codes "status" ∷ [])
      (first_of statuses end_of_statement (error (codes "unexpected token after status")))
      begin_numbers

unfoldable pub begin_named : M Bool
unfolding named_statements first_of name_and_end begin_status
begin_named = first_of named_statements name_and_end begin_status

unfoldable pub begin_deviates : M Bool
unfolding first_of begin_deviate begin_named
begin_deviates = first_of (codes "deviate" ∷ []) begin_deviate begin_named

unfoldable pub begin_bare : M Bool
unfolding bare_blocks first_of begin_deviates
begin_bare = first_of bare_blocks open_curly begin_deviates

unfoldable pub begin_paths : M Bool
unfolding path_blocks first_of path_and_curly begin_bare
begin_paths = first_of path_blocks path_and_curly begin_bare

unfoldable pub begin_blocks : M Bool
unfolding named_blocks first_of name_and_curly begin_paths
begin_blocks = first_of named_blocks name_and_curly begin_paths

-- `lexBegin`, in front of this text.
unfoldable pub lex_from : Bytes → M Bool
unfolding begin_blocks
lex_from [] l = ok (false, l)
lex_from (c ∷ s) l = begin_blocks l

-- `lexBegin`
unfoldable pub lex_begin : M Bool
unfolding lex_from
lex_begin l = lex_from l.rest l
