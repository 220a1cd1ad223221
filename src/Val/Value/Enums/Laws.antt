-- ===== src/Val/Value/Enums/Laws.antt =====
-- EnumList.Add gives each label an id of its own.
use c2g.Common.{◌^◌, ◌≡◌, refl, List, [], ◌∷◌, ◌++◌, Bytes, some, arith, All}
use c2g.Common.Int.{ℤ, negsuc, ◌-ℤ◌, ◌<ℤ◌, wrap_signed, IsSigned}
use c2g.Common.Int.Wrap.{wrap_signed_of_IsSigned}
use c2g.Val.Value.{Enum}
use c2g.Val.Value.Enums.{next_id, add, by_id}

-- Ids rise along the list, and one more than each of them is still an `int`.
abbrev pub Ascending : List Enum → Type 0
Ascending [] = Unit
Ascending (e ∷ es) =
    All (λ (x : Enum). e.id <ℤ x.id) es
    × IsSigned (2 ^ 63) e.id
    × IsSigned (2 ^ 63) (e.id -ℤ negsuc 0)
    × Ascending es

successor_above :
    (z : ℤ) → IsSigned (2 ^ 63) (z -ℤ negsuc 0) → z <ℤ wrap_signed (2 ^ 63) (z -ℤ negsuc 0)
successor_above z h = rw (wrap_signed_of_IsSigned (2 ^ 63) (z -ℤ negsuc 0) h) (ground arith)

<ℤ_trans : (a b c : ℤ) → a <ℤ b → b <ℤ c → a <ℤ c
<ℤ_trans a b c p q = ground arith

next_id_above_head : (e : Enum) (es : List Enum) → Ascending (e ∷ es) → e.id <ℤ next_id (e ∷ es)
unfolding next_id
next_id_above_head e [] h = successor_above e.id h.2
next_id_above_head e (x ∷ es) h = <ℤ_trans e.id x.id _ h.0.0 (next_id_above_head x es h.3)

-- The next id is above every id of an ascending list.
pub next_id_above : (es : List Enum) → Ascending es → All (λ (x : Enum). x.id <ℤ next_id es) es
unfolding next_id
next_id_above [] h = tt
next_id_above (e ∷ []) h = (next_id_above_head e [] h, tt)
next_id_above (e ∷ x ∷ es) h = (next_id_above_head e (x ∷ es) h, next_id_above (x ∷ es) h.3)

by_id_above :
    (id : ℤ) (e : Enum) (es : List Enum)
    → All (λ (x : Enum). x.id <ℤ id) es
    → e.id ≡ id
    → by_id id (es ++ e ∷ []) ≡ some e
unfolding by_id
by_id_above id e [] h p = ground arith
by_id_above id e (x ∷ es) h p = ground (arith, by_id_above id e es h.1 p)

by_id_append :
    (id : ℤ) (i : Enum) (es rest : List Enum)
    → by_id id es ≡ some i
    → by_id id (es ++ rest) ≡ some i
unfolding by_id
by_id_append id i [] rest h = cc
by_id_append id i (x ∷ es) rest h = ground (arith, by_id_append id i es rest)

-- After `Add` to a list of ascending ids the new label is found under `NextId`.
pub by_id-add_next :
    (es : List Enum) (label : Bytes)
    → Ascending es
    → by_id (next_id es) (add es label) ≡ some (record { id = next_id es; label = label })
unfolding add
by_id-add_next es label h = by_id_above (next_id es) _ es (next_id_above es h) refl

-- Whatever an id named before `Add`, it still names.
pub by_id-add_old :
    (es : List Enum) (label : Bytes) (id : ℤ) (i : Enum)
    → by_id id es ≡ some i
    → by_id id (add es label) ≡ some i
unfolding add
by_id-add_old es label id i = by_id_append id i es _
