-- ===== src/Core/Normalize/ThingModel.antt =====
-- service.go: normalizeThingModel and what it calls.
pub mod Laws
use getdata.Base.{
  ℕ, ◌≡◌, String, Bool, true, false, ◌||◌, ◌&&◌, not, List, [], ◌∷◌, ◌==◌, if◌then◌else◌, contains,
  Result, ok, err, ◌>>=◌, ◌>>◌, invalid_thing_model,
}
use getdata.Base.Text.{trim_space}
use getdata.Model.{
  Time, ThingModel, ThingModelProperty, ThingModelEvent, ThingModelService, ThingModelParameter,
}
use getdata.Core.Normalize.{normalize_data_type, normalize_access_mode, is_supported_data_type}

abbrev pub trim_property : ThingModelProperty → ThingModelProperty
trim_property p = record p {
  identifier = trim_space p.identifier;
  name = trim_space p.name;
  data_type = normalize_data_type p.data_type;
  access_mode = normalize_access_mode p.access_mode;
}

unfoldable pub normalize_parameters : List ThingModelParameter → List ThingModelParameter
normalize_parameters [] = []
normalize_parameters (p ∷ rest) =
    record p {
      identifier = trim_space p.identifier;
      name = trim_space p.name;
      data_type = normalize_data_type p.data_type;
    }
    ∷ normalize_parameters rest

abbrev pub trim_event : ThingModelEvent → ThingModelEvent
trim_event e = record e {
  identifier = trim_space e.identifier;
  name = trim_space e.name;
  output = normalize_parameters e.output;
}

abbrev pub trim_service : ThingModelService → ThingModelService
trim_service v = record v {
  identifier = trim_space v.identifier;
  name = trim_space v.name;
  input = normalize_parameters v.input;
  output = normalize_parameters v.output;
}

-- One of the three loops: an item is trimmed, refused if it is not acceptable or if its identifier
-- was seen before, and kept otherwise.
module _ {A : Type 0} (trimmed : A → A) (acceptable : A → Bool) (identifier : A → String) where
  unfoldable pub normalize_each : List String → List A → Result (List A)
  normalize_each seen [] = ok []
  normalize_each seen (a ∷ rest) =
      let item = trimmed a in
      let others = normalize_each (identifier item ∷ seen) rest in
      if not (acceptable item) || contains (identifier item) seen
      then err invalid_thing_model
      else others >>= λ items. ok (item ∷ items)

abbrev pub is_property : ThingModelProperty → Bool
is_property p =
    not (p.identifier == "" || p.name == "" || p.data_type == "")
    && is_supported_data_type p.data_type

abbrev pub is_event : ThingModelEvent → Bool
is_event e = not (e.identifier == "" || e.name == "")

abbrev pub is_service : ThingModelService → Bool
is_service v = not (v.identifier == "" || v.name == "")

unfoldable pub normalize_thing_model : ThingModel → ℕ → Time → Result ThingModel
unfolding normalize_each
normalize_thing_model model version updated_at = do
  properties ← normalize_each trim_property is_property (λ p. p.identifier) [] model.properties
  events ← normalize_each trim_event is_event (λ e. e.identifier) [] model.events
  services ← normalize_each trim_service is_service (λ v. v.identifier) [] model.services
  ok record {
    properties = properties;
    events = events;
    services = services;
    version = version;
    updated_at = updated_at;
  }
