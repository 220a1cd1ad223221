-- ===== src/Meta/Feature.antt =====
-- meta/core.go: the evaluation of if-feature expressions (`IfFeature.Evaluate`, `ifFeatureEval`).
-- The evaluator's position is the text that is left; its stack has the top first. Where it calls
-- itself, and where its loop goes round, it takes fuel: one more than the text is long is enough.
pub mod Total
pub mod Grammar
pub mod Rounds
pub mod Runs
pub mod Correct
pub mod Precedence
pub mod Set
use c2g.Common.{
  ℕ, zero, suc, Bool, true, false, not, ◌&&◌, ◌||◌, List, [], ◌∷◌, Bytes, codes, bytes_eq, Option,
  none, some, ◌==◌, if◌then◌else◌, Result, ok, err, length,
}

-- `ifFeatureEval`; `failed` is `lastErr != nil`.
pub record FeatureEval : Type 0 where
  pub rest : Bytes
  pub stack : List Bool
  pub failed : Bool

-- The key is in the map of features.
unfoldable pub has_key : Bytes → List Bytes → Bool
has_key x [] = false
has_key x (y ∷ ys) = if bytes_eq x y then true else has_key x ys

-- `eatws`
unfoldable pub eat_ws : Bytes → Bytes
eat_ws [] = []
eat_ws (c ∷ s) = if c == b' ' then eat_ws s else c ∷ s

abbrev pub is_paren : ℕ → Bool
is_paren c = c == b'(' || c == b')'

-- The rest of a token that has begun: up to a blank or a parenthesis.
unfoldable pub word : Bytes → Bytes × Bytes
word [] = ([], [])
word (c ∷ s) =
    let (tok, rest) = word s in if c == b' ' || is_paren c then ([], c ∷ s) else (c ∷ tok, rest)

-- A parenthesis at the start is a token of its own.
unfoldable pub token : Bytes → Bytes × Bytes
unfolding word
token [] = ([], [])
token (c ∷ s) = if is_paren c then (c ∷ [], s) else word (c ∷ s)

-- `next`: the token and what follows it.
unfoldable pub next : Bytes → Bytes × Bytes
unfolding token eat_ws
next s = token (eat_ws s)

abbrev pub push : Bool → FeatureEval → FeatureEval
push b y = record y { stack = b ∷ y.stack }

-- `pop`: false and an error on an empty stack.
unfoldable pub pop_from : List Bool → FeatureEval → Bool × FeatureEval
pop_from [] y = (false, record y { failed = true })
pop_from (b ∷ bs) y = (b, record y { stack = bs })

abbrev pub pop : FeatureEval → Bool × FeatureEval
pop y = pop_from y.stack y

-- `a, b := y.pop(), y.pop(); y.push(op(a, b))`
unfoldable pub binary : (Bool → Bool → Bool) → FeatureEval → FeatureEval
unfolding pop_from
binary op y = let (a, y') = pop y in let (b, y'') = pop y' in push (op a b) y''

-- `y.push(!y.pop())`
unfoldable pub negate_top : FeatureEval → FeatureEval
unfolding pop_from
negate_top y = let (a, y') = pop y in push (not a) y'

abbrev pub and_bool : Bool → Bool → Bool
and_bool a b = a && b

abbrev pub or_bool : Bool → Bool → Bool
or_bool a b = a || b

infixl 5 ◌>>=◌
abbrev pub ◌>>=◌ : Option FeatureEval → (FeatureEval → Option FeatureEval) → Option FeatureEval
none >>= f = none
some y >>= f = f y

-- The switch of `eval` without the case of a closing parenthesis. `self` is `eval`.
unfoldable pub operate :
    List Bytes
    → (Bool → FeatureEval → Option FeatureEval)
    → Bytes
    → FeatureEval
    → Option FeatureEval
operate features self tok y =
    if bytes_eq tok (codes "(")
    then self false y
    else if bytes_eq tok (codes "and")
    then self true y >>= (λ z. some (binary and_bool z))
    else if bytes_eq tok (codes "not")
    then self true y >>= (λ z. some (negate_top z))
    else if bytes_eq tok (codes "or")
    then self false y >>= (λ z. some (binary or_bool z))
    else some (push (has_key tok features) y)

-- One round of the loop on a token; `case ")"` returns from the call.
unfoldable pub round :
    List Bytes
    → (Bool → FeatureEval → Option FeatureEval)
    → Bool
    → Bytes
    → FeatureEval
    → Option FeatureEval
round features self greedy tok y =
    if bytes_eq tok (codes ")")
    then some y
    else operate features self tok y >>= (λ z. if greedy then some z else self greedy z)

-- `for !y.end() { tok := y.next(); … }`, by the text that is left.
unfoldable pub scan :
    List Bytes
    → (Bool → FeatureEval → Option FeatureEval)
    → Bool
    → Bytes
    → FeatureEval
    → Option FeatureEval
scan features self greedy [] y = some y
scan features self greedy (c ∷ s) y =
    let (tok, rest) = next (c ∷ s) in round features self greedy tok (record y { rest = rest })

-- `eval`
unfoldable pub eval : List Bytes → ℕ → Bool → FeatureEval → Option FeatureEval
eval features zero greedy y = none
eval features (suc f) greedy y = scan features (eval features f) greedy y.rest y

-- The result of `Evaluate`: an error if there was one or if the stack is not empty in the end.
unfoldable pub outcome : Bool → Bool → List Bool → Result (Unit {0}) Bool
outcome b true stack = err tt
outcome b false [] = ok b
outcome b false (_ ∷ _) = err tt

-- `Evaluate` behind the call of `eval`.
unfoldable pub conclude : Option FeatureEval → Option (Result (Unit {0}) Bool)
unfolding pop_from outcome
conclude none = none
conclude (some y) = let (b, z) = pop y in some (outcome b z.failed z.stack)

-- `IfFeature.Evaluate`; `none` where the fuel would run out.
unfoldable pub evaluate : Bytes → List Bytes → Option (Result (Unit {0}) Bool)
unfolding conclude eval scan round operate next has_key binary negate_top bytes_eq
evaluate expr enabled =
    conclude
      (eval enabled (suc (length expr)) false (record { rest = expr; stack = []; failed = false }))
