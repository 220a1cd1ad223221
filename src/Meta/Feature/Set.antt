-- ===== src/Meta/Feature/Set.antt =====
-- meta/feature_set.go: which features are on. A Go map of features is the list of its keys; the
-- cache of results is an association list with the last entry first.
pub mod Laws
use c2g.Common.{
  ℕ, ◌≡◌, refl, ◌↔◌, Bool, true, false, not, ◌&&◌, ◌||◌, List, [], ◌∷◌, ◌++◌, Bytes, bytes_eq,
  bytes_eq_iff, Option, none, some, arith, if◌then◌else◌, Result, ok, err, Bool-cases, inl, inr,
}
use c2g.Meta.Feature.{evaluate, has_key}

-- `supportedFeatures`; `enabled` and `cache` are `none` for the nil map.
pub record SupportedFeatures : Type 0 where
  pub specified : List Bytes
  pub otherwise_on : Bool
  pub enabled : Option (List Bytes)
  pub cache : Option (List (Bytes × Bool))

-- `FeaturesOn` and `FeaturesOff`
unfoldable pub features_on : List Bytes → SupportedFeatures
features_on features = record {
  specified = features;
  otherwise_on = false;
  enabled = none;
  cache = none;
}

unfoldable pub features_off : List Bytes → SupportedFeatures
features_off features = record {
  specified = features;
  otherwise_on = true;
  enabled = none;
  cache = none;
}

-- `AllFeaturesOn`
unfoldable pub all_features_on : SupportedFeatures
unfolding features_off
all_features_on = features_off []

-- Copy in all of the module's features, then delete those that are specified.
unfoldable pub without : List Bytes → List Bytes → List Bytes
without specified [] = []
without specified (id ∷ ids) =
    let rest = without specified ids in if has_key id specified then rest else id ∷ rest

-- Copy in those of the specified features that the module has.
unfoldable pub found_in : List Bytes → List Bytes → List Bytes
found_in mod_features [] = []
found_in mod_features (id ∷ ids) =
    let rest = found_in mod_features ids in if has_key id mod_features then id ∷ rest else rest

-- The last part of `Initialize`: the map becomes the one of `self`, or is copied into it.
unfoldable pub merge : Option (List Bytes) → List Bytes → List Bytes
merge none enabled = enabled
merge (some old) enabled = enabled ++ old

-- `Initialize`, on the features of the module.
unfoldable pub initialize : SupportedFeatures → List Bytes → SupportedFeatures
unfolding merge without found_in
initialize self mod_features = record self {
  enabled = some (
      merge self.enabled (
        if self.otherwise_on
        then without self.specified mod_features
        else found_in mod_features self.specified));
  cache = some [];
}

unfoldable pub cached : Bytes → List (Bytes × Bool) → Option Bool
cached expr [] = none
cached expr ((e, on) ∷ rest) = if bytes_eq expr e then some on else cached expr rest

-- The keys of the map, none of the nil map.
abbrev pub keys : Option (List Bytes) → List Bytes
keys none = []
keys (some ids) = ids

-- The entries of the cache, none of the nil map.
abbrev pub entries : Option (List (Bytes × Bool)) → List (Bytes × Bool)
entries none = []
entries (some cache) = cache

-- `self.cache[f.Expression()] = on`; an assignment to the nil map panics.
unfoldable pub remember :
    SupportedFeatures
    → Bytes
    → Bool
    → Option (List (Bytes × Bool))
    → Option (SupportedFeatures × Result (Unit {0}) Bool)
remember self expr on none = none
remember self expr on (some cache) = some (record self { cache = some ((expr, on) ∷ cache) }, ok on)

-- The second half of `Resolve`: an error is not stored.
unfoldable pub store :
    SupportedFeatures
    → Bytes
    → Option (Result (Unit {0}) Bool)
    → Option (SupportedFeatures × Result (Unit {0}) Bool)
unfolding remember
store self expr none = none
store self expr (some (err e)) = some (self, err e)
store self expr (some (ok on)) = remember self expr on self.cache

unfoldable pub resolve_cached :
    Option Bool → SupportedFeatures → Bytes → Option (SupportedFeatures × Result (Unit {0}) Bool)
unfolding store
resolve_cached (some on) self expr = some (self, ok on)
resolve_cached none self expr = store self expr (evaluate expr (keys self.enabled))

-- `Resolve`
unfoldable pub resolve :
    SupportedFeatures → Bytes → Option (SupportedFeatures × Result (Unit {0}) Bool)
unfolding resolve_cached cached
resolve self expr = resolve_cached (cached expr (entries self.cache)) self expr

-- One round of the loop of `checkFeature`: `if on, err := …; err != nil || !on { return false, err }`.
unfoldable pub go_on :
    Option (SupportedFeatures × Result (Unit {0}) Bool)
    → (SupportedFeatures → Option (SupportedFeatures × Result (Unit {0}) Bool))
    → Option (SupportedFeatures × Result (Unit {0}) Bool)
go_on none next = none
go_on (some (self, err e)) next = some (self, err e)
go_on (some (self, ok false)) next = some (self, ok false)
go_on (some (self, ok true)) next = next self

-- `checkFeature`, on the if-feature statements of a definition.
unfoldable pub check_feature :
    SupportedFeatures → List Bytes → Option (SupportedFeatures × Result (Unit {0}) Bool)
unfolding go_on
check_feature self [] = some (self, ok true)
check_feature self (iff ∷ ifs) = go_on (resolve self iff) (λ self'. check_feature self' ifs)
