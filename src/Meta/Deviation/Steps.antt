-- ===== src/Meta/Deviation/Steps.antt =====
-- meta/resolver.go: what the steps of a deviation do to the properties of a definition.
use c2g.Common.{
  ◌≡◌, refl, sym, ap, ◌∙◌, List, [], ◌∷◌, ◌++◌, Bytes, Bool, Option, none, some, Result, ok, arith,
}
use mathlib.Core.List.{append_assoc, append-nil}
use c2g.Common.Int.{ℤ}
use c2g.Meta.Deviation.{
  Details, ListDetails, LeafDetails, Target, Property, through, Want, unset, set, guarded, text,
  set_config, set_mandatory, set_max_elements, set_min_elements, set_units, set_default, add_musts,
  add_unique,
}

-- The properties of a definition, whatever interfaces it implements.
pub record View : Type 0 where
  pub config : Option Bool
  pub mandatory : Option Bool
  pub max_elements : Option ℤ
  pub min_elements : Option ℤ
  pub units : Option Bytes
  pub default_val : Option Bytes
  pub musts : List Bytes
  pub unique : List (List Bytes)

abbrev pub field {ℓ κ} : {A : Type ℓ} {B : Type κ} → Option A → B → (A → B) → B
field none y f = y
field (some x) y f = f x

abbrev pub view : Target → View
view t = record {
  config = field t.details none (λ d. d.config);
  mandatory = field t.details none (λ d. d.mandatory);
  max_elements = field t.list_details none (λ d. d.max_elements);
  min_elements = field t.list_details none (λ d. d.min_elements);
  units = field t.leaf_details none (λ d. text d.units);
  default_val = field t.leaf_details none (λ d. d.default_val);
  musts = field t.musts [] (λ l. l);
  unique = field t.unique [] (λ l. l);
}

-- What is given, or else what was there.
abbrev pub given : {A : Type 0} → Option A → Option A → Option A
given none before = before
given (some x) before = some x

-- What is given was not set before, or was.
abbrev pub Met : {A : Type 0} → Want → Option A → Option A → Type 0
Met want none before = Unit
Met unset (some x) before = before ≡ none
Met {A} set (some x) before = (y : A) × (before ≡ some y)

met :
    {A B : Type 0} (want : Want) (p : Property) (x : A) (before : Option A) (y z : B)
    → guarded want p before y ≡ ok z
    → Met want (some x) before × (y ≡ z)
met unset p x none y z e = ground arith
met unset p x (some b) y z e = cc
met set p x none y z e = cc
met set p x (some b) y z e = ((b, refl), ground arith)

-- A step that sets one property: what it asks for, and the properties behind it.
abbrev pub Sets :
    {A : Type 0}
    → Want
    → Option A
    → (View → Option A)
    → (View → Option A → View)
    → Target
    → Target
    → Type 0
Sets want g get put t t' =
    Met want g (get (view t)) × (view t' ≡ put (view t) (given g (get (view t))))

pub ok_inj : {E A : Type 0} {x y : A} → ◌≡◌ {A = Result E A} (ok x) (ok y) → x ≡ y
ok_inj e = ground (arith, e)

pub config-Sets :
    (want : Want) (g : Option Bool) (t t' : Target)
    → set_config want g t ≡ ok t'
    → Sets want g (λ v. v.config) (λ v x. record v { config = x }) t t'
unfolding set_config
config-Sets want none t t' e = (tt, ap view (sym (ok_inj e)))
config-Sets want (some c) t t' e = on t.details refl e
  where
    after : Details → Target
    after d = record t { details = some (record d { config = some c }) }

    on :
        (o : Option Details)
        → t.details ≡ o
        → through o (λ d. guarded want Property.config d.config (after d)) ≡ ok t'
        → Sets want (some c) (λ v. v.config) (λ v x. record v { config = x }) t t'
    on none q e = cc
    on (some d) q e =
        let (m, p) = met want Property.config c d.config (after d) t' e in rw q (m, ap view (sym p))

pub mandatory-Sets :
    (want : Want) (g : Option Bool) (t t' : Target)
    → set_mandatory want g t ≡ ok t'
    → Sets want g (λ v. v.mandatory) (λ v x. record v { mandatory = x }) t t'
unfolding set_mandatory
mandatory-Sets want none t t' e = (tt, ap view (sym (ok_inj e)))
mandatory-Sets want (some c) t t' e = on t.details refl e
  where
    after : Details → Target
    after d = record t { details = some (record d { mandatory = some c }) }

    on :
        (o : Option Details)
        → t.details ≡ o
        → through o (λ d. guarded want Property.mandatory d.mandatory (after d)) ≡ ok t'
        → Sets want (some c) (λ v. v.mandatory) (λ v x. record v { mandatory = x }) t t'
    on none q e = cc
    on (some d) q e =
        let (m, p) = met want Property.mandatory c d.mandatory (after d) t' e in
        rw q (m, ap view (sym p))

pub max_elements-Sets :
    (want : Want) (g : Option ℤ) (t t' : Target)
    → set_max_elements want g t ≡ ok t'
    → Sets want g (λ v. v.max_elements) (λ v x. record v { max_elements = x }) t t'
unfolding set_max_elements
max_elements-Sets want none t t' e = (tt, ap view (sym (ok_inj e)))
max_elements-Sets want (some c) t t' e = on t.list_details refl e
  where
    after : ListDetails → Target
    after d = record t { list_details = some (record d { max_elements = some c }) }

    on :
        (o : Option ListDetails)
        → t.list_details ≡ o
        → through o (λ d. guarded want Property.max_elements d.max_elements (after d)) ≡ ok t'
        → Sets want (some c) (λ v. v.max_elements) (λ v x. record v { max_elements = x }) t t'
    on none q e = cc
    on (some d) q e =
        let (m, p) = met want Property.max_elements c d.max_elements (after d) t' e in
        rw q (m, ap view (sym p))

pub min_elements-Sets :
    (want : Want) (g : Option ℤ) (t t' : Target)
    → set_min_elements want g t ≡ ok t'
    → Sets want g (λ v. v.min_elements) (λ v x. record v { min_elements = x }) t t'
unfolding set_min_elements
min_elements-Sets want none t t' e = (tt, ap view (sym (ok_inj e)))
min_elements-Sets want (some c) t t' e = on t.list_details refl e
  where
    after : ListDetails → Target
    after d = record t { list_details = some (record d { min_elements = some c }) }

    on :
        (o : Option ListDetails)
        → t.list_details ≡ o
        → through o (λ d. guarded want Property.min_elements d.min_elements (after d)) ≡ ok t'
        → Sets want (some c) (λ v. v.min_elements) (λ v x. record v { min_elements = x }) t t'
    on none q e = cc
    on (some d) q e =
        let (m, p) = met want Property.min_elements c d.min_elements (after d) t' e in
        rw q (m, ap view (sym p))

pub default_val-Sets :
    (want : Want) (g : Option Bytes) (t t' : Target)
    → set_default want g t ≡ ok t'
    → Sets want g (λ v. v.default_val) (λ v x. record v { default_val = x }) t t'
unfolding set_default
default_val-Sets want none t t' e = (tt, ap view (sym (ok_inj e)))
default_val-Sets want (some c) t t' e = on t.leaf_details refl e
  where
    after : LeafDetails → Target
    after d = record t { leaf_details = some (record d { default_val = some c }) }

    on :
        (o : Option LeafDetails)
        → t.leaf_details ≡ o
        → through o (λ d. guarded want Property.default_val d.default_val (after d)) ≡ ok t'
        → Sets want (some c) (λ v. v.default_val) (λ v x. record v { default_val = x }) t t'
    on none q e = cc
    on (some d) q e =
        let (m, p) = met want Property.default_val c d.default_val (after d) t' e in
        rw q (m, ap view (sym p))

pub units-Sets :
    (want : Want) (g : Bytes) (t t' : Target)
    → set_units want g t ≡ ok t'
    → Sets want (text g) (λ v. v.units) (λ v x. record v { units = x }) t t'
unfolding set_units
units-Sets want [] t t' e = (tt, ap view (sym (ok_inj e)))
units-Sets want (c ∷ s) t t' e = on t.leaf_details refl e
  where
    after : LeafDetails → Target
    after d = record t { leaf_details = some (record d { units = c ∷ s }) }

    on :
        (o : Option LeafDetails)
        → t.leaf_details ≡ o
        → through o (λ d. guarded want Property.units (text d.units) (after d)) ≡ ok t'
        → Sets want (some (c ∷ s)) (λ v. v.units) (λ v x. record v { units = x }) t t'
    on none q e = cc
    on (some d) q e =
        let (m, p) = met want Property.units (c ∷ s) (text d.units) (after d) t' e in
        rw q (m, ap view (sym p))

pub add_musts-eq :
    (ms : List Bytes) (t t' : Target)
    → add_musts ms t ≡ ok t'
    → view t' ≡ record (view t) { musts = (view t).musts ++ ms }
unfolding add_musts
add_musts-eq [] t t' e =
    ap view (sym (ok_inj e))
    ∙ ap (λ l. record (view t) { musts = l }) (sym (append-nil (view t).musts))
add_musts-eq (m ∷ ms) t t' e = on t.musts (λ u. add_musts-eq ms u t') refl e
  where
    on :
        (o : Option (List Bytes))
        → ((u : Target)
            → add_musts ms u ≡ ok t'
            → view t' ≡ record (view u) { musts = (view u).musts ++ ms })
        → t.musts ≡ o
        → through o (λ l. add_musts ms (record t { musts = some (l ++ m ∷ []) })) ≡ ok t'
        → view t' ≡ record (view t) { musts = (view t).musts ++ (m ∷ ms) }
    on none ih q e = cc
    on (some l) ih q e =
        ih (record t { musts = some (l ++ m ∷ []) }) e
        ∙ rw q (
            ap (λ l'. record (view (record t { musts = some l })) { musts = l' })
              (append_assoc l (m ∷ []) ms))

pub add_unique-eq :
    (ms : List (List Bytes)) (t t' : Target)
    → add_unique ms t ≡ ok t'
    → view t' ≡ record (view t) { unique = (view t).unique ++ ms }
unfolding add_unique
add_unique-eq [] t t' e =
    ap view (sym (ok_inj e))
    ∙ ap (λ l. record (view t) { unique = l }) (sym (append-nil (view t).unique))
add_unique-eq (m ∷ ms) t t' e = on t.unique (λ u. add_unique-eq ms u t') refl e
  where
    on :
        (o : Option (List (List Bytes)))
        → ((u : Target)
            → add_unique ms u ≡ ok t'
            → view t' ≡ record (view u) { unique = (view u).unique ++ ms })
        → t.unique ≡ o
        → through o (λ l. add_unique ms (record t { unique = some (l ++ m ∷ []) })) ≡ ok t'
        → view t' ≡ record (view t) { unique = (view t).unique ++ (m ∷ ms) }
    on none ih q e = cc
    on (some l) ih q e =
        ih (record t { unique = some (l ++ m ∷ []) }) e
        ∙ rw q (
            ap (λ l'. record (view (record t { unique = some l })) { unique = l' })
              (append_assoc l (m ∷ []) ms))
