-- ===== src/Node/Choices/Ends.antt =====
-- node/container_meta_list.go: the iterator ends, whatever the node answers, also where its answers
-- change from one round to the next.
use c2g.Common.{
  ℕ, zero, suc, ◌+◌, ◌≤◌, ◌≡◌, refl, ap, Bytes, false, Option, none, some, Result, ok, err, ◌>>=◌,
  arith,
}
use c2g.Meta.Defs.{Def, Defs, Cases, leaf, container, list, choice, nil, more, is_choice}
use c2g.Node.Choices.{
  Stop, panics, out_of_fuel, Iter, plain, within, Choose, case_defs, next_of, on_meta, look_ahead,
}
use c2g.Node.Choices.Flatten.{cost, cost_cases, cost-case_defs}

abbrev pub one : Option Def → ℕ
one none = 0
one (some d) = 1

abbrev pub cost_main : Option Defs → ℕ
cost_main none = 0
cost_main (some ds) = cost ds

-- The rounds and the turns that an iterator has left.
unfoldable pub weight : Iter → ℕ
weight (plain nx main) = one nx + (1 + cost_main main)
weight (within nx main sub) = one nx + (2 + weight sub + cost_main main)

abbrev pub IsPlain : Option Def → Type 0
IsPlain none = Unit {0}
IsPlain (some d) = is_choice d ≡ false

-- No next of it is a choice.
unfoldable pub IsTidy : Iter → Type 0
IsTidy (plain nx main) = IsPlain nx
IsTidy (within nx main sub) = IsPlain nx × IsTidy sub

abbrev pub SubTidy : Iter → Type 0
SubTidy (plain nx main) = Unit {0}
SubTidy (within nx main sub) = IsTidy sub

-- The loop panics or ends; then its next has been paid for.
abbrev pub Ends : Result Stop Iter → Iter → Type 0
Ends (err panics) i = Unit {0}
Ends (err out_of_fuel) i = ⊥
Ends (ok j) i = IsTidy j × (weight j + one (next_of i) ≤ weight i)

next_plain : (i : Iter) (m : Def) → IsTidy i → next_of i ≡ some m → is_choice m ≡ false
unfolding IsTidy
next_plain (plain nx main) m h e = ground (arith, h)
next_plain (within nx main sub) m h e = ground (arith, h)

pub sub_tidy : (i : Iter) → IsTidy i → SubTidy i
unfolding IsTidy
sub_tidy (plain nx main) h = tt
sub_tidy (within nx main sub) h = h.1

on_plain :
    (choose : Choose) (look : Iter → Result Stop Iter) (m : Def) (main : Option Defs) (s f : Iter)
    → is_choice m ≡ false
    → on_meta choose look m main s f ≡ ok f
on_plain choose look (leaf x) main s f e = refl
on_plain choose look (container x ds) main s f e = refl
on_plain choose look (list x ds) main s f e = refl
on_plain choose look (choice x cs) main s f e = cc

Ends-le :
    (r : Result Stop Iter) (i j : Iter)
    → weight i + one (next_of j) ≤ weight j
    → next_of i ≡ none
    → Ends r i
    → Ends r j
Ends-le (err panics) i j h e x = tt
Ends-le (err out_of_fuel) i j h e x = x
Ends-le (ok k) i j h e x = (x.0, omega (arith, x.1, h))

Ends->>= :
    (r : Result Stop Iter) (f : Iter → Result Stop Iter) (i j : Iter)
    → Ends r i
    → ((k : Iter) → IsTidy k → weight k + one (next_of i) ≤ weight i → Ends (f k) j)
    → Ends (r >>= f) j
Ends->>= (err panics) f i j h g = tt
Ends->>= (err out_of_fuel) f i j h g = absurd h
Ends->>= (ok k) f i j h g = g k h.0 h.1

-- A loop that ends where there is fuel for what an iterator has left.
abbrev EndsWith : ℕ → (Iter → Result Stop Iter) → Type 0
EndsWith n look = (i : Iter) → SubTidy i → weight i ≤ n + one (next_of i) → Ends (look i) i

chosen-Ends :
    (n : ℕ) (look : Iter → Result Stop Iter) (o : Option (Option Bytes)) (nx : Option Def)
    (x : Bytes) (cs : Cases) (ds : Defs)
    → EndsWith n look
    → 4 + cost_cases cs + cost ds ≤ n
    → Ends
        (elim o [
          | none ↦ err panics
          | some none ↦ look (plain none (some ds))
          | some (some k) ↦
              look (plain none (some (case_defs k cs))) >>= λ sub. look (within none (some ds) sub)
        ])
        (plain nx (some (more (choice x cs) ds)))
unfolding weight cost
chosen-Ends n look none nx x cs ds g b = tt
chosen-Ends n look (some none) nx x cs ds g b =
    Ends-le _ (plain none (some ds)) _ (omega arith) refl
      (g (plain none (some ds)) tt (omega (arith, b)))
chosen-Ends n look (some (some k)) nx x cs ds g b =
    let start = plain none (some (case_defs k cs)) in
    Ends->>= _ _ start _ (g start tt (omega (arith, b, cost-case_defs k cs))) (λ sub t c.
      Ends-le _ (within none (some ds) sub) _ (omega (arith, c, cost-case_defs k cs)) refl
        (g (within none (some ds) sub) t (omega (arith, b, c, cost-case_defs k cs))))

inside-Ends :
    (n : ℕ) (choose : Choose) (look : Iter → Result Stop Iter) (o nx : Option Def)
    (main : Option Defs) (sub : Iter)
    → next_of sub ≡ o
    → EndsWith n look
    → IsTidy sub
    → 2 + weight sub + cost_main main ≤ suc n
    → Ends
        (elim o [
          | none ↦ look sub >>= λ _. look (plain none main)
          | some m ↦ look sub >>= λ sub'.
              on_meta choose look m main (within none main sub') (within (some m) main sub')
        ])
        (within nx main sub)
unfolding weight IsTidy
inside-Ends n choose look none nx main sub e g h b =
    Ends->>= _ _ sub _ (g sub (sub_tidy sub h) (omega (arith, b))) (λ k t c.
      Ends-le _ (plain none main) _ (omega arith) refl (g (plain none main) tt (omega (arith, b))))
inside-Ends n choose look (some m) nx main sub e g h b =
    let p = next_plain sub m h e in
    Ends->>= _ _ sub _ (g sub (sub_tidy sub h) (omega (arith, b))) (λ k t c.
      rw (on_plain choose look m main (within none main k) (within (some m) main k) p)
        ((p, t), omega (arith, c, ap one e)))

pub look_ahead-Ends :
    (choose : Choose) (n : ℕ) (i : Iter)
    → SubTidy i
    → weight i ≤ n + one (next_of i)
    → Ends (look_ahead choose n i) i
unfolding weight IsTidy cost look_ahead
look_ahead-Ends choose zero (plain nx main) h b = absurd (omega (arith, b))
look_ahead-Ends choose zero (within nx main sub) h b = absurd (omega (arith, b))
look_ahead-Ends choose (suc n) (plain nx none) h b = (tt, omega arith)
look_ahead-Ends choose (suc n) (plain nx (some nil)) h b = (tt, omega arith)
look_ahead-Ends choose (suc n) (plain nx (some (more (leaf x) ds))) h b = (refl, omega arith)
look_ahead-Ends choose (suc n) (plain nx (some (more (container x cs) ds))) h b =
    (refl, omega arith)
look_ahead-Ends choose (suc n) (plain nx (some (more (list x cs) ds))) h b = (refl, omega arith)
look_ahead-Ends choose (suc n) (plain nx (some (more (choice x cs) ds))) h b =
    chosen-Ends n (look_ahead choose n) (choose x cs) nx x cs ds (look_ahead-Ends choose n)
      (omega (arith, b))
look_ahead-Ends choose (suc n) (within nx main sub) h b =
    inside-Ends n choose (look_ahead choose n) (next_of sub) nx main sub refl
      (look_ahead-Ends choose n) h (omega (arith, b))
