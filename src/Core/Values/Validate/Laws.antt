-- ===== src/Core/Values/Validate/Laws.antt =====
-- What validateThingValues accepts, whatever the order in which Go ranges over the map.
use getdata.Base.{
  String, ◌≡◌, refl, ◌⊎◌, inl, inr, ◌↔◌, Option, none, some, List, [], ◌∷◌, ok, arith, All,
  Option-cases, eq_iff,
}
use getdata.Base.Dict.{Dict, lookup, insert, lookup-insert, lookup-nil}
use getdata.Model.{Value, Product, ThingModelProperty}
use getdata.Core.Values.Validate.{
  property_map, check_value, check_values, check_against, validate_thing_values, property_of, Fits,
}

abbrev or_else {ℓ} : {A : Type ℓ} → Option A → Option A → Option A
or_else none o = o
or_else (some a) o = some a

lookup-property_map :
    (k : String) (ps : List ThingModelProperty) (m : Dict ThingModelProperty)
    → lookup k (property_map ps m) ≡ or_else (property_of k ps) (lookup k m)
unfolding property_map
lookup-property_map k [] m = refl
lookup-property_map k (p ∷ ps) m = ground (
  arith,
  lookup-property_map k ps (insert p.identifier p m),
  lookup-insert k p.identifier p m,
  eq_iff p.identifier k,
)

lookup-map :
    (k : String) (ps : List ThingModelProperty) → lookup k (property_map ps []) ≡ property_of k ps
lookup-map k ps = ground (arith, lookup-property_map k ps [], lookup-nil {V = ThingModelProperty} k)

check_value_iff :
    (ps : List ThingModelProperty) (k : String) (v : Value)
    → (check_value (property_map ps []) k v ≡ ok tt) ↔ Fits ps (k, v)
unfolding check_value
check_value_iff ps k v = elim (Option-cases (property_of k ps)) [
  | inl e ↦ (λ h. absurd (ground (arith, lookup-map k ps)), λ f. absurd (cc (e, f.1)))
  | inr (p, e) ↦
      (λ h. (p, e, ground (arith, lookup-map k ps)), λ f. ground (arith, lookup-map k ps, f.1, f.2))
]

check_values_iff :
    (ps : List ThingModelProperty) (vs : Dict Value)
    → (check_values (property_map ps []) vs ≡ ok tt) ↔ All (Fits ps) vs
unfolding check_values
check_values_iff ps [] = (λ h. tt, λ h. refl)
check_values_iff ps ((k, v) ∷ rest) = (
  λ h. ((check_value_iff ps k v).0 (ground arith), (check_values_iff ps rest).0 (ground arith)),
  λ f. ground (arith, (check_value_iff ps k v).1 f.0, (check_values_iff ps rest).1 f.1),
)

check_against_iff :
    (ps : List ThingModelProperty) (vs : Dict Value)
    → (check_against ps vs ≡ ok tt) ↔ ((ps ≡ []) ⊎ All (Fits ps) vs)
unfolding check_against
check_against_iff [] vs = (λ h. inl refl, λ f. refl)
check_against_iff (p ∷ ps) vs = (
  λ h. inr ((check_values_iff (p ∷ ps) vs).0 h),
  elim [ inl e ↦ absurd (cc e) | inr f ↦ (check_values_iff (p ∷ ps) vs).1 f ],
)

-- Values are accepted exactly where the product's thing model has no property, or where every key is
-- a property of the model and every value has that property's type.
pub validate_thing_values_iff :
    (product : Product) (vs : Dict Value)
    → (validate_thing_values product vs ≡ ok tt)
      ↔ ((product.thing_model.properties ≡ []) ⊎ All (Fits product.thing_model.properties) vs)
unfolding validate_thing_values
validate_thing_values_iff product [] = (λ h. inr tt, λ f. refl)
validate_thing_values_iff product (entry ∷ rest) =
    check_against_iff product.thing_model.properties (entry ∷ rest)
