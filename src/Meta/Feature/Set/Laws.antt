-- ===== src/Meta/Feature/Set/Laws.antt =====
-- What a feature set turns on, and what it remembers.
use c2g.Common.{
  ◌≡◌, refl, ◌∙◌, ◌↔◌, Bool, true, false, not, ◌&&◌, ◌||◌, List, [], ◌∷◌, ◌++◌, Bytes, bytes_eq,
  bytes_eq_iff, Option, none, some, arith, if◌then◌else◌, Result, ok, err, Bool-cases, inl, inr,
  All,
}
use c2g.Meta.Feature.{evaluate, has_key}
use c2g.Meta.Feature.Total.{evaluate-total}
use c2g.Meta.Feature.Set.{
  SupportedFeatures, without, found_in, merge, initialize, cached, keys, entries, remember, store,
  resolve_cached, resolve, go_on, check_feature,
}

has_key-bytes_eq : (a b : Bytes) (l : List Bytes) → bytes_eq a b ≡ true → has_key a l ≡ has_key b l
has_key-bytes_eq a b l h = let e = (bytes_eq_iff a b).0 h in rw e

has_key-without :
    (id : Bytes) (specified ids : List Bytes)
    → has_key id (without specified ids) ≡ (has_key id ids && not (has_key id specified))
unfolding has_key without
has_key-without id specified [] = refl
has_key-without id specified (x ∷ ids) =
    ground (arith, has_key-without id specified ids, has_key-bytes_eq id x specified)

has_key-found_in :
    (id : Bytes) (ms ids : List Bytes)
    → has_key id (found_in ms ids) ≡ (has_key id ms && has_key id ids)
unfolding has_key found_in
has_key-found_in id ms [] = ground arith
has_key-found_in id ms (x ∷ ids) =
    ground (arith, has_key-found_in id ms ids, has_key-bytes_eq id x ms)

has_key-append :
    (id : Bytes) (a b : List Bytes) → has_key id (a ++ b) ≡ (has_key id a || has_key id b)
unfolding has_key
has_key-append id [] b = refl
has_key-append id (x ∷ a) b = ground (arith, has_key-append id a b)

has_key-merge :
    (id : Bytes) (old : Option (List Bytes)) (new : List Bytes)
    → has_key id (merge old new) ≡ (has_key id new || has_key id (keys old))
unfolding merge has_key
has_key-merge id none new = ground arith
has_key-merge id (some old) new = has_key-append id new old

-- After `Initialize` a feature is on if it was on before, or if the module has it and it is not
-- specified (for a set made by FeaturesOff) or is specified (for one made by FeaturesOn).
pub has_key-initialize :
    (self : SupportedFeatures) (mod_features : List Bytes) (id : Bytes)
    → has_key id (keys (initialize self mod_features).enabled)
      ≡ (if self.otherwise_on
          then has_key id mod_features && not (has_key id self.specified)
          else has_key id mod_features && has_key id self.specified)
        || has_key id (keys self.enabled)
unfolding initialize
has_key-initialize self ms id = elim (Bool-cases self.otherwise_on) [
  | inl off ↦ rw off (
      has_key-merge id self.enabled (without self.specified ms)
      ∙ rw (has_key-without id self.specified ms))
  | inr on ↦ rw on (
      has_key-merge id self.enabled (found_in ms self.specified)
      ∙ rw (has_key-found_in id ms self.specified))
]

-- Every stored result is that of the evaluation under the features that are on.
abbrev pub CacheHolds : List Bytes → List (Bytes × Bool) → Type 0
CacheHolds on [] = Unit
CacheHolds on ((e, b) ∷ rest) = (evaluate e on ≡ some (ok b)) × CacheHolds on rest

-- The set is initialized, and its cache holds nothing wrong.
abbrev CacheReady : List Bytes → Option (List (Bytes × Bool)) → Type 0
CacheReady on none = ⊥
CacheReady on (some cache) = CacheHolds on cache

abbrev pub IsReady : SupportedFeatures → Type 0
IsReady self = CacheReady (keys self.enabled) self.cache

cached-CacheHolds :
    (on : List Bytes) (expr : Bytes) (cache : List (Bytes × Bool)) (b : Bool)
    → CacheHolds on cache
    → cached expr cache ≡ some b
    → evaluate expr on ≡ some (ok b)
unfolding cached
cached-CacheHolds on expr [] b h e = cc
cached-CacheHolds on expr ((x, c) ∷ rest) b h e = elim (Bool-cases (bytes_eq expr x)) [
  | inl same ↦
      let e' : some c ≡ some b = rw same at e in
      let cb : c ≡ b = cc in rw ((bytes_eq_iff expr x).0 same, ← cb) h.0
  | inr other ↦ cached-CacheHolds on expr rest b h.1 (rw other at e)
]

-- What a `Resolve` of `expr` returned: the evaluation, in a set that is as good.
abbrev pub Resolved :
    SupportedFeatures → Bytes → Option (SupportedFeatures × Result (Unit {0}) Bool) → Type 0
Resolved self expr none = ⊥
Resolved self expr (some (self', r)) =
    (evaluate expr (keys self.enabled) ≡ some r) × (self'.enabled ≡ self.enabled) × IsReady self'

remember-Resolved :
    (self : SupportedFeatures) (expr : Bytes) (on : Bool)
    → IsReady self
    → evaluate expr (keys self.enabled) ≡ some (ok on)
    → Resolved self expr (remember self expr on self.cache)
unfolding remember
remember-Resolved self expr on h e = go self.cache h
  where
    go :
        (c : Option (List (Bytes × Bool)))
        → CacheReady (keys self.enabled) c
        → Resolved self expr (remember self expr on c)
    go none k = absurd k
    go (some cache) k = (e, refl, (e, k))

store-Resolved :
    (self : SupportedFeatures) (expr : Bytes) (r : Result (Unit {0}) Bool)
    → IsReady self
    → evaluate expr (keys self.enabled) ≡ some r
    → Resolved self expr (store self expr (some r))
unfolding store
store-Resolved self expr (ok on) h e = remember-Resolved self expr on h e
store-Resolved self expr (err x) h e = (e, refl, h)

resolve_cached-Resolved :
    (self : SupportedFeatures) (expr : Bytes) (o : Option Bool)
    → IsReady self
    → ((b : Bool) → o ≡ some b → evaluate expr (keys self.enabled) ≡ some (ok b))
    → Resolved self expr (resolve_cached o self expr)
unfolding resolve_cached
resolve_cached-Resolved self expr (some b) h k = (k b refl, refl, h)
resolve_cached-Resolved self expr none h k =
    let (r, e) = evaluate-total expr (keys self.enabled) in rw e (store-Resolved self expr r h e)

IsReady-entries :
    (self : SupportedFeatures) → IsReady self → CacheHolds (keys self.enabled) (entries self.cache)
IsReady-entries self h = go self.cache h
  where
    go :
        (c : Option (List (Bytes × Bool)))
        → CacheReady (keys self.enabled) c
        → CacheHolds (keys self.enabled) (entries c)
    go none k = tt
    go (some cache) k = k

-- In an initialized set whose cache is right, `Resolve` returns what `Evaluate` gives, whether it
-- was stored or not, keeps the features that are on, and stores nothing wrong.
pub resolve-Resolved :
    (self : SupportedFeatures) (expr : Bytes)
    → IsReady self
    → Resolved self expr (resolve self expr)
unfolding resolve
resolve-Resolved self expr h =
    resolve_cached-Resolved self expr (cached expr (entries self.cache)) h (λ b.
      cached-CacheHolds (keys self.enabled) expr (entries self.cache) b (IsReady-entries self h))

-- `checkFeature` says yes.
abbrev pub SaysYes : Option (SupportedFeatures × Result (Unit {0}) Bool) → Type 0
SaysYes none = ⊥
SaysYes (some (self, ok b)) = b ≡ true
SaysYes (some (self, err e)) = ⊥

-- Every if-feature statement holds of the features that are on.
abbrev pub AllHold : List Bytes → List Bytes → Type 0
AllHold on ifs = All (λ (e : Bytes). evaluate e on ≡ some (ok true)) ifs

check_step :
    (self : SupportedFeatures) (iff : Bytes) (ifs : List Bytes)
    (o : Option (SupportedFeatures × Result (Unit {0}) Bool))
    (next : SupportedFeatures → Option (SupportedFeatures × Result (Unit {0}) Bool))
    → Resolved self iff o
    → ((self' : SupportedFeatures)
        → self'.enabled ≡ self.enabled
        → IsReady self'
        → SaysYes (next self') ↔ AllHold (keys self.enabled) ifs)
    → SaysYes (go_on o next) ↔ AllHold (keys self.enabled) (iff ∷ ifs)
unfolding go_on
check_step self iff ifs none next r k = absurd r
check_step self iff ifs (some (self', err e)) next r k =
    (λ h. absurd h, λ h. ground (arith, r.0, h.0))
check_step self iff ifs (some (self', ok false)) next r k = (λ h. cc, λ h. ground (arith, r.0, h.0))
check_step self iff ifs (some (self', ok true)) next r k =
    let (down, up) = k self' r.1 r.2 in (λ h. (r.0, down h), λ h. up h.1)

-- In an initialized set whose cache is right, `checkFeature` says yes exactly where every
-- if-feature statement of the definition evaluates, with no error, to true.
pub check_feature-AllHold :
    (self : SupportedFeatures) (ifs : List Bytes)
    → IsReady self
    → SaysYes (check_feature self ifs) ↔ AllHold (keys self.enabled) ifs
unfolding check_feature
check_feature-AllHold self [] h = (λ _. tt, λ _. refl)
check_feature-AllHold self (iff ∷ ifs) h =
    check_step self iff ifs (resolve self iff) (λ self'. check_feature self' ifs)
      (resolve-Resolved self iff h) (λ self' e c. rw (← e) (check_feature-AllHold self' ifs c))
