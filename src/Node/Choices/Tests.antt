-- ===== src/Node/Choices/Tests.antt =====
-- The iterator of a container on concrete definitions.
use c2g.Common.{
  ◌≡◌, refl, List, [], ◌∷◌, codes, none, some, ok, err, ◌>>=◌, arith, bytes_eq, if◌then◌else◌,
}
use c2g.Meta.Defs.{Def, Defs, leaf, container, choice, nil, more, case_of, no_cases, one_of}
use c2g.Node.Choices.{panics, look_ahead, new_iter, visits, next_meta}
use c2g.Node.Choices.Flatten.{Answer, choose_by, flatten, cost}
use c2g.Node.Choices.Rounds.{visits-flatten}

-- leaf id; choice transport { case tcp { leaf port; choice auth { case none; case token { leaf key } } }
-- case unix { leaf file } }; container stats
abbrev auth : Def
auth = choice (codes "auth") (
    one_of (case_of (codes "none") nil)
      (one_of (case_of (codes "token") (more (leaf (codes "key")) nil)) no_cases))

abbrev transport : Def
transport = choice (codes "transport") (
    one_of (case_of (codes "tcp") (more (leaf (codes "port")) (more auth nil)))
      (one_of (case_of (codes "unix") (more (leaf (codes "file")) nil)) no_cases))

abbrev server : Defs
server = more (leaf (codes "id")) (more transport (more (container (codes "stats") nil) nil))

abbrev token_over_tcp : Answer
token_over_tcp x cs = if bytes_eq x (codes "auth") then some (codes "token") else some (codes "tcp")

abbrev shown : List Def
shown =
    leaf (codes "id")
    ∷ leaf (codes "port")
    ∷ leaf (codes "key")
    ∷ container (codes "stats") nil
    ∷ []

flatten_runs : flatten token_over_tcp server ≡ shown
unfolding flatten bytes_eq
flatten_runs = refl

visits_run :
    (new_iter (choose_by token_over_tcp) 30 server >>= visits (choose_by token_over_tcp) 30 9)
    ≡ ok shown
unfolding visits new_iter next_meta look_ahead bytes_eq
visits_run = refl

choose_error : new_iter (λ x cs. none) 30 (more auth nil) ≡ err panics
unfolding new_iter look_ahead
choose_error = refl

cost_runs : cost server ≡ 13
unfolding cost
cost_runs = refl

visits-flatten_example :
    (new_iter (choose_by token_over_tcp) 30 server >>= visits (choose_by token_over_tcp) 30 9)
    ≡ ok (flatten token_over_tcp server)
unfolding cost flatten bytes_eq
visits-flatten_example = visits-flatten token_over_tcp server 30 9 (omega arith) (omega arith)
