-- ===== src/Val/Value/Items.antt =====
-- val/types.go: the interface Listable (`Len` and `Item` of the list types); val/util.go: `Reduce`.
use c2g.Common.{ℕ, ◌+◌, ◌∙◌, ◌≡◌, refl, List, [], ◌∷◌, ◌++◌, Option, none, some, map}
use c2g.Val.Value.{
  Value, string, string_list, bool, bool_list, num, num_list, decimal64, decimal64_list, enum,
  enum_list, ident_ref, ident_ref_list,
}
use mathlib.Core.List.{append_assoc, append-nil}

-- `Item(0)` to `Item(Len() - 1)`; `none` where the value is no Listable.
unfoldable pub items : {F : Type 0} → Value F → Option (List (Value F))
items (string_list x) = some (map string x)
items (bool_list x) = some (map bool x)
items (num_list w x) = some (map (num w) x)
items (decimal64_list x) = some (map decimal64 x)
items (enum_list x) = some (map enum x)
items (ident_ref_list x) = some (map ident_ref x)
items v = none

-- The loop of `Reduce` from index `i` on.
unfoldable pub reduce_from {ℓ} :
    {F : Type 0} {R : Type ℓ} → (ℕ → Value F → R → R) → ℕ → List (Value F) → R → R
reduce_from f i [] result = result
reduce_from f i (v ∷ vs) result = reduce_from f (i + 1) vs (f i v result)

-- `Reduce`: a value that is no list is passed once, with index 0.
unfoldable pub reduce {ℓ} : {F : Type 0} {R : Type ℓ} → Value F → R → (ℕ → Value F → R → R) → R
unfolding reduce_from items
reduce v initial f = elim (items v) [ none ↦ f 0 v initial | some vs ↦ reduce_from f 0 vs initial ]

-- Elements with their positions.
abbrev pub enumerate {ℓ} : {A : Type ℓ} → ℕ → List A → List (ℕ × A)
enumerate i [] = []
enumerate i (x ∷ xs) = (i, x) ∷ enumerate (i + 1) xs

abbrev pub collect : {F : Type 0} → ℕ → Value F → List (ℕ × Value F) → List (ℕ × Value F)
collect i v acc = acc ++ (i, v) ∷ []

reduce_from-collect :
    {F : Type 0} (i : ℕ) (vs : List (Value F)) (acc : List (ℕ × Value F))
    → reduce_from collect i vs acc ≡ acc ++ enumerate i vs
unfolding reduce_from
reduce_from-collect i [] acc = rw append-nil
reduce_from-collect i (v ∷ vs) acc =
    reduce_from-collect (i + 1) vs (collect i v acc)
    ∙ append_assoc acc ((i, v) ∷ []) (enumerate (i + 1) vs)

collect_cases :
    {F : Type 0} (v : Value F) (o : Option (List (Value F)))
    → (elim o [ none ↦ collect 0 v [] | some vs ↦ reduce_from collect 0 vs [] ])
      ≡ elim o [ none ↦ (0, v) ∷ [] | some vs ↦ enumerate 0 vs ]
collect_cases v none = refl
collect_cases v (some vs) = reduce_from-collect 0 vs []

-- `Reduce`, and so `ForEach`, visits every item of a list once, in order, with its index; any
-- other value is visited once, at index 0.
pub reduce-collect :
    {F : Type 0} (v : Value F)
    → reduce v [] collect ≡ elim (items v) [ none ↦ (0, v) ∷ [] | some vs ↦ enumerate 0 vs ]
unfolding reduce
reduce-collect v = collect_cases v (items v)
