-- ===== src/Node/Choices/Rounds.antt =====
-- node/container_meta_list.go: what the iterator visits.
use c2g.Common.{
  ℕ, zero, suc, ◌+◌, ◌≤◌, ◌<◌, ◌≡◌, refl, ap, ◌∙◌, List, [], ◌∷◌, ◌++◌, Bytes, false, Option, none,
  some, Result, ok, ◌>>=◌, arith, length, inl, inr, Option-cases,
}
use c2g.Meta.Defs.{Def, Defs, Cases, leaf, container, list, choice, nil, more, is_choice}
use c2g.Node.Choices.{
  Stop, Iter, plain, within, Choose, case_defs, next_of, on_meta, look_ahead, new_iter, next_meta,
  visits,
}
use c2g.Node.Choices.Flatten.{
  Answer, choose_by, flatten, flatten_case-eq, cost, cost_cases, cost-case_defs,
}

abbrev opt_list : Option Def → List Def
opt_list none = []
opt_list (some d) = d ∷ []

abbrev flatten_main : Answer → Option Defs → List Def
flatten_main a none = []
flatten_main a (some ds) = flatten a ds

abbrev cost_main : Option Defs → ℕ
cost_main none = 0
cost_main (some ds) = cost ds

-- What an iterator has left to give behind its next.
pending : Answer → Iter → List Def
pending a (plain nx main) = flatten_main a main
pending a (within nx main sub) = (opt_list (next_of sub) ++ pending a sub) ++ flatten_main a main

effort : Iter → ℕ
effort (plain nx main) = 1 + cost_main main
effort (within nx main sub) = 2 + effort sub + cost_main main

-- The next is no choice, and there is one as long as something is left.
abbrev IsPlain : Option Def → Type 0
IsPlain none = Unit {0}
IsPlain (some d) = is_choice d ≡ false

abbrev HasLast : Option Def → List Def → Type 0
HasLast none l = l ≡ []
HasLast (some d) l = Unit {0}

abbrev IsReady : Answer → Iter → Type 0
IsReady a (plain nx main) = IsPlain nx × HasLast nx (flatten_main a main)
IsReady a (within nx main sub) =
    (IsPlain nx × HasLast nx (pending a (within nx main sub))) × IsReady a sub

-- What the field choiceCase must be for the loop.
abbrev SubReady : Answer → Iter → Type 0
SubReady a (plain nx main) = Unit {0}
SubReady a (within nx main sub) = IsReady a sub

record Looked (a : Answer) (n : ℕ) (i : Iter) : Type 0 where
  after : Iter
  runs : look_ahead (choose_by a) n i ≡ ok after
  gives : opt_list (next_of after) ++ pending a after ≡ pending a i
  ready : IsReady a after
  cheaper : effort after ≤ effort i

sub_ready : (a : Answer) (i : Iter) → IsReady a i → SubReady a i
sub_ready a (plain nx main) h = tt
sub_ready a (within nx main sub) h = h.1

next_plain :
    (a : Answer) (i : Iter) (m : Def) → IsReady a i → next_of i ≡ some m → is_choice m ≡ false
next_plain a (plain nx main) m h e = ground (arith, h)
next_plain a (within nx main sub) m h e = ground (arith, h)

last_pending : (a : Answer) (i : Iter) → IsReady a i → next_of i ≡ none → pending a i ≡ []
unfolding pending
last_pending a (plain none main) h e = h.1
last_pending a (plain (some d) main) h e = cc
last_pending a (within none main sub) h e = h.0.1
last_pending a (within (some d) main sub) h e = cc

on_plain :
    (choose : Choose) (look : Iter → Result Stop Iter) (m : Def) (main : Option Defs) (s f : Iter)
    → is_choice m ≡ false
    → on_meta choose look m main s f ≡ ok f
on_plain choose look (leaf x) main s f e = refl
on_plain choose look (container x ds) main s f e = refl
on_plain choose look (list x ds) main s f e = refl
on_plain choose look (choice x cs) main s f e = cc

-- A choice with a chosen case: the iterator of the case, then the loop again.
look_chosen :
    (a : Answer) (n : ℕ) (nx : Option Def) (x k : Bytes) (cs : Cases) (ds : Defs)
    → a x cs ≡ some k
    → Looked a n (plain none (some (case_defs k cs)))
    → ((sub : Iter)
        → IsReady a sub
        → effort sub ≤ 1 + cost_cases cs
        → Looked a n (within none (some ds) sub))
    → Looked a (suc n) (plain nx (some (more (choice x cs) ds)))
unfolding pending effort flatten cost look_ahead
look_chosen a n nx x k cs ds e case_ rest =
    let sub_cost : effort case_.after ≤ 1 + cost_cases cs =
      omega (arith, case_.cheaper, cost-case_defs k cs) in
    let r = rest case_.after case_.ready sub_cost in
    record {
      after = r.after;
      runs = rw (e, on_meta) (rw (case_.runs) r.runs);
      gives = r.gives ∙ rw (case_.gives) (rw e (rw (flatten_case-eq a k cs) refl));
      ready = r.ready;
      cheaper = omega (arith, r.cheaper, sub_cost);
    }

look_unchosen :
    (a : Answer) (n : ℕ) (nx : Option Def) (x : Bytes) (cs : Cases) (ds : Defs)
    → a x cs ≡ none
    → Looked a n (plain none (some ds))
    → Looked a (suc n) (plain nx (some (more (choice x cs) ds)))
unfolding pending effort flatten cost look_ahead
look_unchosen a n nx x cs ds e r = record {
  after = r.after;
  runs = rw (e, on_meta) r.runs;
  gives = r.gives ∙ rw e refl;
  ready = r.ready;
  cheaper = omega (arith, r.cheaper);
}

-- The iterator of the case has nothing left: the loop goes on without it.
look_left :
    (a : Answer) (n : ℕ) (nx : Option Def) (main : Option Defs) (sub : Iter)
    → IsReady a sub
    → next_of sub ≡ none
    → Looked a n sub
    → Looked a n (plain none main)
    → Looked a (suc n) (within nx main sub)
unfolding pending effort look_ahead
look_left a n nx main sub h e s r = record {
  after = r.after;
  runs = rw (e, look_ahead) (rw (s.runs) r.runs);
  gives = r.gives ∙ rw (e, last_pending a sub h e) refl;
  ready = r.ready;
  cheaper = omega (arith, r.cheaper);
}

look_inside :
    (a : Answer) (n : ℕ) (nx : Option Def) (main : Option Defs) (sub : Iter) (m : Def)
    → IsReady a sub
    → next_of sub ≡ some m
    → Looked a n sub
    → Looked a (suc n) (within nx main sub)
unfolding pending effort look_ahead
look_inside a n nx main sub m h e s =
    let p = next_plain a sub m h e in
    record {
      after = within (some m) main s.after;
      runs =
          rw (e, look_ahead)
            (rw (s.runs) (
              on_plain (choose_by a) (look_ahead (choose_by a) n) m main (within none main s.after)
                (within (some m) main s.after) p));
      gives = rw (e, s.gives) refl;
      ready = ((p, tt), s.ready);
      cheaper = omega (arith, s.cheaper);
    }

look : (a : Answer) (n : ℕ) (i : Iter) → SubReady a i → effort i ≤ n → Looked a n i
unfolding pending effort flatten cost look_ahead
look a zero (plain nx main) h b = absurd (omega (arith, b))
look a zero (within nx main sub) h b = absurd (omega (arith, b))
look a (suc n) (plain nx none) h b = record {
  after = plain none none;
  runs = refl;
  gives = refl;
  ready = (tt, refl);
  cheaper = omega arith;
}
look a (suc n) (plain nx (some nil)) h b = record {
  after = plain none none;
  runs = refl;
  gives = refl;
  ready = (tt, refl);
  cheaper = omega arith;
}
look a (suc n) (plain nx (some (more (choice x cs) ds))) h b = elim (Option-cases (a x cs)) [
  | inl e ↦ look_unchosen a n nx x cs ds e (look a n (plain none (some ds)) tt (omega (arith, b)))
  | inr (k, e) ↦
      look_chosen a n nx x k cs ds e
        (look a n (plain none (some (case_defs k cs))) tt (omega (arith, b, cost-case_defs k cs)))
        (λ sub r c. look a n (within none (some ds) sub) r (omega (arith, b, c)))
]
look a (suc n) (plain nx (some (more (leaf x) ds))) h b = record {
  after = plain (some (leaf x)) (some ds);
  runs = refl;
  gives = refl;
  ready = (refl, tt);
  cheaper = omega arith;
}
look a (suc n) (plain nx (some (more (container x cs) ds))) h b = record {
  after = plain (some (container x cs)) (some ds);
  runs = refl;
  gives = refl;
  ready = (refl, tt);
  cheaper = omega arith;
}
look a (suc n) (plain nx (some (more (list x cs) ds))) h b = record {
  after = plain (some (list x cs)) (some ds);
  runs = refl;
  gives = refl;
  ready = (refl, tt);
  cheaper = omega arith;
}
look a (suc n) (within nx main sub) h b =
    let s = look a n sub (sub_ready a sub h) (omega (arith, b)) in
    elim (Option-cases (next_of sub)) [
      | inl e ↦ look_left a n nx main sub h e s (look a n (plain none main) tt (omega (arith, b)))
      | inr (m, e) ↦ look_inside a n nx main sub m h e s
    ]

-- The loop over the iterator gives its next and all that is left.
visits-pending :
    (a : Answer) (n turns : ℕ) (i : Iter)
    → IsReady a i
    → effort i ≤ n
    → length (opt_list (next_of i) ++ pending a i) < turns
    → visits (choose_by a) n turns i ≡ ok (opt_list (next_of i) ++ pending a i)
unfolding visits next_meta
visits-pending a n zero i h b t = absurd (omega (arith, t))
visits-pending a n (suc turns) i h b t =
    let s = look a n i (sub_ready a i h) b in
    elim (Option-cases (next_of i)) [
      | inl e ↦ rw (s.runs) (rw e (rw (last_pending a i h e) refl))
      | inr (m, e) ↦
          let ih =
            visits-pending a n turns s.after s.ready (omega (arith, s.cheaper, b))
              (rw (s.gives) (ground (arith, t, e))) in
          rw (s.runs) (rw e (rw ih (rw (s.gives) refl)))
    ]

-- A container shows its definitions in order, those of the chosen case in place of each choice (the
-- choices in it replaced likewise), and none in place of a choice that the node gives no case for:
-- the iterator visits each of them once and ends, given as many rounds of its loops as `cost` counts
-- and two more, and a turn for each and one more.
pub visits-flatten :
    (a : Answer) (ds : Defs) (n turns : ℕ)
    → cost ds + 1 ≤ n
    → length (flatten a ds) < turns
    → (new_iter (choose_by a) n ds >>= visits (choose_by a) n turns) ≡ ok (flatten a ds)
unfolding new_iter pending effort
visits-flatten a ds n turns b t =
    let s = look a n (plain none (some ds)) tt (omega (arith, b)) in
    rw (s.runs) (
      visits-pending a n turns s.after s.ready (omega (arith, s.cheaper, b)) (rw (s.gives) t)
      ∙ ap ok s.gives)
