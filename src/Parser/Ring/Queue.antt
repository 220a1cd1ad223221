-- ===== src/Parser/Ring/Queue.antt =====
-- parser/lexer.go: the ring of tokens as a queue of those that are not read yet.
use c2g.Common.{
  ℕ, zero, suc, ◌+◌, ◌%◌, ◌<◌, ◌≡◌, ◌≢◌, refl, ap, ◌∙◌, ◌⊎◌, List, [], ◌∷◌, ◌++◌, some, length,
  length-append, arith, ◌==◌,
}
use mathlib.Core.Path.{subst}
use c2g.Parser.Ring.{Ring, get_elem?, set, push, pop}

-- `n` steps from `i` lead to `h`, on a ring of `len` slots.
abbrev Leads : ℕ → ℕ → ℕ → ℕ → Type 0
Leads len i n h = (i + n ≡ h) ⊎ (i + n ≡ h + len)

module _ {ℓ} {A : Type ℓ} where
  -- The slots from `i` on hold these.
  abbrev Items : ℕ → List A → ℕ → List A → Type ℓ
  Items len s i [] = Unit
  Items len s i (t ∷ ts) = (get_elem? s i ≡ some t) × Items len s ((i + 1) % len) ts

  -- The ring holds these, the oldest first. One slot is always free.
  pub record Holds (r : Ring A) (ts : List A) : Type ℓ where
    pub head_in : r.head < length r.slots
    pub tail_in : r.tail < length r.slots
    pub fits : length ts < length r.slots
    pub leads : Leads (length r.slots) r.tail (length ts) r.head
    pub items : Items (length r.slots) r.slots r.tail ts

  length-set : (xs : List A) (i : ℕ) (v : A) → length (set xs i v) ≡ length xs
  length-set [] i v = refl
  length-set (x ∷ xs) zero v = refl
  length-set (x ∷ xs) (suc i) v = ap suc (length-set xs i v)

  get_elem?-set_self :
      (xs : List A) (i : ℕ) (v : A) → i < length xs → get_elem? (set xs i v) i ≡ some v
  get_elem?-set_self [] i v h = absurd (omega arith)
  get_elem?-set_self (x ∷ xs) zero v h = refl
  get_elem?-set_self (x ∷ xs) (suc i) v h = get_elem?-set_self xs i v (omega arith)

  get_elem?-set_ne :
      (xs : List A) (i j : ℕ) (v : A) → j ≢ i → get_elem? (set xs j v) i ≡ get_elem? xs i
  get_elem?-set_ne [] i j v h = refl
  get_elem?-set_ne (x ∷ xs) zero zero v h = absurd (h refl)
  get_elem?-set_ne (x ∷ xs) zero (suc j) v h = refl
  get_elem?-set_ne (x ∷ xs) (suc i) zero v h = refl
  get_elem?-set_ne (x ∷ xs) (suc i) (suc j) v h = get_elem?-set_ne xs i j v (λ e. h (ap suc e))

  get_elem?-in : (xs : List A) (i : ℕ) → i < length xs → (x : A) × (get_elem? xs i ≡ some x)
  get_elem?-in [] i h = absurd (omega arith)
  get_elem?-in (x ∷ xs) zero h = (x, refl)
  get_elem?-in (x ∷ xs) (suc i) h = get_elem?-in xs i (omega arith)

next_index :
    (len i : ℕ) → i < len → ((i + 1 ≡ (i + 1) % len) ⊎ ((i + 1 ≡ len) × ((i + 1) % len ≡ 0)))
next_index len i h = grind arith

next_in : (len i : ℕ) → i < len → (i + 1) % len < len
next_in len i h = ground (arith, next_index len i)

Leads-next :
    (len i n h : ℕ) → i < len → h < len → Leads len i (suc n) h → Leads len ((i + 1) % len) n h
Leads-next len i n h p q r = ground (arith, next_index len i)

Leads-suc :
    (len i n h : ℕ)
    → i < len
    → h < len
    → n < len
    → Leads len i n h
    → Leads len i (suc n) ((h + 1) % len)
Leads-suc len i n h p q k r = ground (arith, next_index len h)

module _ {ℓ} {A : Type ℓ} where
  Items-snoc :
      (len : ℕ) (s : List A) (i h : ℕ) (v : A) (ts : List A)
      → length s ≡ len
      → i < len
      → h < len
      → length ts < len
      → Leads len i (length ts) h
      → Items len s i ts
      → Items len (set s h v) i (ts ++ v ∷ [])
  Items-snoc len s i h v [] e p q k l m =
      let same : i ≡ h = ground arith in (rw same (get_elem?-set_self s h v (omega (arith, e))), tt)
  Items-snoc len s i h v (t ∷ ts) e p q k l m =
      let other : h ≢ i = λ x. ground arith in
      (
        get_elem?-set_ne s i h v other ∙ m.0,
        Items-snoc len s ((i + 1) % len) h v ts e (next_in len i p) q (omega arith)
            (Leads-next len i (length ts) h p q l) m.1,
      )

  -- Where a slot more than one is free, `pushToken` puts the token behind the others.
  pub push-Holds :
      (r : Ring A) (ts : List A) (t : A)
      → Holds r ts
      → suc (length ts) < length r.slots
      → (r' : Ring A) × (push t r ≡ some r')
        × Holds r' (ts ++ t ∷ [])
        × (length r'.slots ≡ length r.slots)
  unfolding push
  push-Holds r ts t h k =
      let (old, there) = get_elem?-in r.slots r.head h.head_in in
      let len = length r.slots in
      let same = length-set r.slots r.head t in
      (
        record { slots = set r.slots r.head t; head = (r.head + 1) % len; tail = r.tail },
        rw (there, push) refl,
        record {
          head_in = rw same (next_in len r.head h.head_in);
          tail_in = rw same h.tail_in;
          fits = rw same (omega (arith, length-append ts (t ∷ [])));
          leads = rw same (
              subst (λ n. Leads len r.tail n ((r.head + 1) % len))
                (omega (arith, length-append ts (t ∷ [])))
                (Leads-suc len r.tail (length ts) r.head h.tail_in h.head_in h.fits h.leads));
          items = rw same (
              Items-snoc len r.slots r.tail r.head t ts refl h.tail_in h.head_in h.fits h.leads
                h.items);
        },
        same,
      )

  -- `popToken` takes the oldest token.
  pub pop-Holds :
      (r : Ring A) (t : A) (ts : List A)
      → Holds r (t ∷ ts)
      → (r' : Ring A) × (pop r ≡ some (t, r')) × Holds r' ts × (r'.slots ≡ r.slots)
  unfolding pop
  pop-Holds r t ts h =
      let len = length r.slots in
      (
        record { slots = r.slots; head = r.head; tail = (r.tail + 1) % len },
        rw (h.items.0, pop) refl,
        record {
          head_in = h.head_in;
          tail_in = next_in len r.tail h.tail_in;
          fits = let k = h.fits in omega arith;
          leads = Leads-next len r.tail (length ts) r.head h.tail_in h.head_in h.leads;
          items = h.items.1;
        },
        refl,
      )

  -- `nextToken` tells an empty ring by its indices.
  pub Holds-empty : (r : Ring A) (ts : List A) → Holds r ts → (r.head == r.tail) ≡ (length ts == 0)
  Holds-empty r ts h =
      let a = h.leads in let b = h.head_in in let c = h.tail_in in let d = h.fits in ground arith

  -- One token too many: where a single slot is free, the token that is pushed makes the ring look
  -- empty, and all of its tokens are lost.
  pub push_overflows :
      (r : Ring A) (ts : List A) (t : A)
      → Holds r ts
      → suc (length ts) ≡ length r.slots
      → (r' : Ring A) × (push t r ≡ some r') × Holds r' []
  unfolding push
  push_overflows r ts t h k =
      let (old, there) = get_elem?-in r.slots r.head h.head_in in
      let len = length r.slots in
      let same = length-set r.slots r.head t in
      (
        record { slots = set r.slots r.head t; head = (r.head + 1) % len; tail = r.tail },
        rw (there, push) refl,
        record {
          head_in = rw same (next_in len r.head h.head_in);
          tail_in = rw same h.tail_in;
          fits = rw same (let a = h.fits in omega arith);
          leads = rw same (
              let a = h.leads in
              let b = h.head_in in let c = h.tail_in in ground (arith, next_index len r.head));
          items = tt;
        },
      )
