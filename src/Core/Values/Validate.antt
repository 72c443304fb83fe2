-- ===== src/Core/Values/Validate.antt =====
-- validateThingValues and validateCommandName of service.go.
pub mod Laws
use getdata.Base.{
  ℕ, String, ◌≡◌, refl, Bool, true, false, ◌&&◌, ◌||◌, not, Option, none, some, List, [], ◌∷◌, ◌==◌,
  if◌then◌else◌, Result, ok, err, unknown_thing_property, invalid_thing_model, ◌>>◌, arith, All,
  Error,
}
use getdata.Base.Dict.{Dict, lookup, insert}
use getdata.Model.{Value, Product, ThingModelProperty, ThingModelService}
use getdata.Core.Values.{matches_thing_data_type}

-- The map from identifiers to properties: the last property of an identifier counts.
unfoldable pub property_map :
    List ThingModelProperty → Dict ThingModelProperty → Dict ThingModelProperty
unfolding insert
property_map [] m = m
property_map (p ∷ rest) m = property_map rest (insert p.identifier p m)

unfoldable pub check_value : Dict ThingModelProperty → String → Value → Result (Unit {0})
unfolding lookup
check_value properties key value = elim (lookup key properties) [
  | none ↦ err unknown_thing_property
  | some property ↦
      if matches_thing_data_type property.data_type value then ok tt else err invalid_thing_model
]

-- for key, value := range values
unfoldable pub check_values : Dict ThingModelProperty → Dict Value → Result (Unit {0})
unfolding check_value
check_values properties [] = ok tt
check_values properties ((key, value) ∷ rest) =
    let others = check_values properties rest in check_value properties key value >> others

-- validateThingValues: the two early returns, then the loop.
unfoldable pub check_against : List ThingModelProperty → Dict Value → Result (Unit {0})
unfolding property_map check_values
check_against [] values = ok tt
check_against (p ∷ ps) values = check_values (property_map (p ∷ ps) []) values

unfoldable pub validate_thing_values : Product → Dict Value → Result (Unit {0})
unfolding check_against
validate_thing_values product [] = ok tt
validate_thing_values product (entry ∷ rest) =
    check_against product.thing_model.properties (entry ∷ rest)

unfoldable pub has_service : List ThingModelService → String → Bool
has_service [] name = false
has_service (service ∷ rest) name = service.identifier == name || has_service rest name

abbrev pub no_services : List ThingModelService → Bool
no_services [] = true
no_services (_ ∷ _) = false

unfoldable pub validate_command_name : Product → String → Result (Unit {0})
unfolding has_service
validate_command_name product name =
    if no_services product.thing_model.services
    then ok tt
    else if has_service product.thing_model.services name
    then ok tt
    else err invalid_thing_model

-- The last property of an identifier.
abbrev pub property_of : String → List ThingModelProperty → Option ThingModelProperty
property_of key [] = none
property_of key (p ∷ rest) = elim (property_of key rest) [
  | none ↦ if p.identifier == key then some p else none
  | some q ↦ some q
]

-- A value fits if its key is a property of the model and its type is that property's.
abbrev pub Fits : List ThingModelProperty → String × Value → Type 0
Fits properties (key, value) =
    (p : ThingModelProperty) × (property_of key properties ≡ some p)
    × (matches_thing_data_type p.data_type value ≡ true)
