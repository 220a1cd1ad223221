-- ===== src/Meta/Deviation/Add.antt =====
-- meta/resolver.go: what the deviations add and replace do to a definition.
use c2g.Common.{◌≡◌, refl, ap, ◌∙◌, ◌++◌, Bytes, Bool, Option, Result, ok, err, ◌>>=◌}
use c2g.Common.Int.{ℤ}
use c2g.Meta.Deviation.{
  Target, DeviationError, AddDeviate, ReplaceDeviate, Want, unset, set, text, set_config,
  set_mandatory, set_max_elements, set_min_elements, set_units, set_default, add_musts, add_unique,
  apply_add, apply_replace,
}
use mathlib.Core.Path.{subst}
use c2g.Meta.Deviation.Steps.{
  View, view, given, Met, config-Sets, mandatory-Sets, max_elements-Sets, min_elements-Sets,
  default_val-Sets, units-Sets, add_musts-eq, add_unique-eq,
}

bind_inv :
    {E A B : Type 0} (m : Result E A) (f : A → Result E B) {b : B}
    → (m >>= f) ≡ ok b
    → (a : A) × (m ≡ ok a) × (f a ≡ ok b)
bind_inv (ok a) f e = (a, refl, e)
bind_inv (err x) f e = cc

-- The properties of `AddDeviate` and of `ReplaceDeviate` that can be set only once.
pub record Given : Type 0 where
  pub config : Option Bool
  pub mandatory : Option Bool
  pub max_elements : Option ℤ
  pub min_elements : Option ℤ
  pub units : Option Bytes
  pub default_val : Option Bytes

abbrev pub given_by_add : AddDeviate → Given
given_by_add d = record {
  config = d.config;
  mandatory = d.mandatory;
  max_elements = d.max_elements;
  min_elements = d.min_elements;
  units = text d.units;
  default_val = d.default_val;
}

abbrev pub given_by_replace : ReplaceDeviate → Given
given_by_replace d = record {
  config = d.config;
  mandatory = d.mandatory;
  max_elements = d.max_elements;
  min_elements = d.min_elements;
  units = text d.units;
  default_val = d.default_val;
}

-- Each property that is given was not set before, or was.
pub record AllMet (want : Want) (g : Given) (v : View) : Type 0 where
  pub config : Met want g.config v.config
  pub mandatory : Met want g.mandatory v.mandatory
  pub max_elements : Met want g.max_elements v.max_elements
  pub min_elements : Met want g.min_elements v.min_elements
  pub units : Met want g.units v.units
  pub default_val : Met want g.default_val v.default_val

-- The properties given, in place of those before, and the others as they were.
abbrev pub with_given : Given → View → View
with_given g v = record v {
  config = given g.config v.config;
  mandatory = given g.mandatory v.mandatory;
  max_elements = given g.max_elements v.max_elements;
  min_elements = given g.min_elements v.min_elements;
  units = given g.units v.units;
  default_val = given g.default_val v.default_val;
}

-- The first four steps of both, and the two for the leaves.
abbrev head_steps : Want → Given → Target → Result DeviationError Target
head_steps want g t =
    set_config want g.config t
    >>= set_mandatory want g.mandatory
    >>= set_max_elements want g.max_elements
    >>= set_min_elements want g.min_elements

abbrev head_view : Given → View → View
head_view g v = record v {
  config = given g.config v.config;
  mandatory = given g.mandatory v.mandatory;
  max_elements = given g.max_elements v.max_elements;
  min_elements = given g.min_elements v.min_elements;
}

abbrev HeadMet : Want → Given → View → Type 0
HeadMet want g v =
    (Met want g.config v.config × Met want g.mandatory v.mandatory)
    × (Met want g.max_elements v.max_elements × Met want g.min_elements v.min_elements)

head-Sets :
    (want : Want) (g : Given) (t t' : Target)
    → head_steps want g t ≡ ok t'
    → HeadMet want g (view t) × (view t' ≡ head_view g (view t))
head-Sets want g t t' e =
    let (t3, e3, s4) = bind_inv _ (set_min_elements want g.min_elements) e in
    let (t2, e2, s3) = bind_inv _ (set_max_elements want g.max_elements) e3 in
    let (t1, s1, s2) = bind_inv _ (set_mandatory want g.mandatory) e2 in
    let (m1, p1) = config-Sets want g.config t t1 s1 in
    let (m2, p2) = mandatory-Sets want g.mandatory t1 t2 s2 in
    let (m3, p3) = max_elements-Sets want g.max_elements t2 t3 s3 in
    let (m4, p4) = min_elements-Sets want g.min_elements t3 t' s4 in
    let q2 = p2 ∙ ap (λ (v : View). record v { mandatory = given g.mandatory v.mandatory }) p1 in
    let q3 =
      p3 ∙ ap (λ (v : View). record v { max_elements = given g.max_elements v.max_elements }) q2 in
    (
      (
        (m1, subst (λ v. Met want g.mandatory v.mandatory) p1 m2),
        (
          subst (λ v. Met want g.max_elements v.max_elements) q2 m3,
          subst (λ v. Met want g.min_elements v.min_elements) q3 m4,
        ),
      ),
      p4 ∙ ap (λ (v : View). record v { min_elements = given g.min_elements v.min_elements }) q3,
    )

abbrev leaf_view : Given → View → View
leaf_view g v = record v {
  units = given g.units v.units;
  default_val = given g.default_val v.default_val;
}

leaf-Sets :
    (want : Want) (u : Bytes) (v : Option Bytes) (t t' : Target)
    → (set_units want u t >>= set_default want v) ≡ ok t'
    → (Met want (text u) (view t).units × Met want v (view t).default_val)
      × (view t' ≡ record (view t) {
        units = given (text u) (view t).units;
        default_val = given v (view t).default_val;
      })
leaf-Sets want u v t t' e =
    let (t1, s1, s2) = bind_inv _ (set_default want v) e in
    let (m1, p1) = units-Sets want u t t1 s1 in
    let (m2, p2) = default_val-Sets want v t1 t' s2 in
    (
      (m1, subst (λ w. Met want v w.default_val) p1 m2),
      p2 ∙ ap (λ (w : View). record w { default_val = given v w.default_val }) p1,
    )

-- A replacement that succeeds sets the properties that it gives, each of which was set before, and
-- leaves the other properties of the definition as they were.
pub apply_replace-sets :
    (d : ReplaceDeviate) (t t' : Target)
    → apply_replace d t ≡ ok t'
    → AllMet set (given_by_replace d) (view t)
      × (view t' ≡ with_given (given_by_replace d) (view t))
unfolding apply_replace
apply_replace-sets d t t' e =
    let (t5, e5, s6) = bind_inv _ (set_default set d.default_val) e in
    let (t4, s4, s5) = bind_inv _ (set_units set d.units) e5 in
    let (m, p) = head-Sets set (given_by_replace d) t t4 s4 in
    let (n, q) = leaf-Sets set d.units d.default_val t4 t' (rw s5 s6) in
    (
      record {
        config = m.0.0;
        mandatory = m.0.1;
        max_elements = m.1.0;
        min_elements = m.1.1;
        units = subst (λ v. Met set (text d.units) v.units) p n.0;
        default_val = subst (λ v. Met set d.default_val v.default_val) p n.1;
      },
      q ∙ ap (leaf_view (given_by_replace d)) p,
    )

-- An addition that succeeds sets the properties that it gives, none of which was set before, adds its
-- uniques behind those of the definition and its musts twice behind those of the definition, and
-- leaves the other properties as they were.
pub apply_add-adds :
    (d : AddDeviate) (t t' : Target)
    → apply_add d t ≡ ok t'
    → AllMet unset (given_by_add d) (view t)
      × (view t' ≡ record (with_given (given_by_add d) (view t)) {
        musts = (view t).musts ++ d.musts ++ d.musts;
        unique = (view t).unique ++ d.unique;
      })
unfolding apply_add
apply_add-adds d t t' e =
    let (t8, e8, s9) = bind_inv _ (add_musts d.musts) e in
    let (t7, e7, s8) = bind_inv _ (add_unique d.unique) e8 in
    let (t6, e6, s7) = bind_inv _ (set_default unset d.default_val) e7 in
    let (t5, e5, s6) = bind_inv _ (set_units unset d.units) e6 in
    let (t4, s4, s5) = bind_inv _ (add_musts d.musts) e5 in
    let (m, p4) = head-Sets unset (given_by_add d) t t4 s4 in
    let p5 =
      add_musts-eq d.musts t4 t5 s5
      ∙ ap (λ (v : View). record v { musts = v.musts ++ d.musts }) p4 in
    let (n, p) = leaf-Sets unset d.units d.default_val t5 t7 (rw s6 s7) in
    let p7 = p ∙ ap (leaf_view (given_by_add d)) p5 in
    let p8 =
      add_unique-eq d.unique t7 t8 s8
      ∙ ap (λ (v : View). record v { unique = v.unique ++ d.unique }) p7 in
    (
      record {
        config = m.0.0;
        mandatory = m.0.1;
        max_elements = m.1.0;
        min_elements = m.1.1;
        units = subst (λ v. Met unset (text d.units) v.units) p5 n.0;
        default_val = subst (λ v. Met unset d.default_val v.default_val) p5 n.1;
      },
      add_musts-eq d.musts t8 t' s9 ∙ ap (λ (v : View). record v { musts = v.musts ++ d.musts }) p8,
    )
