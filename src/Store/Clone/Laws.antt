-- ===== src/Store/Clone/Laws.antt =====
-- Every clone function of the store returns what it was given.
use getdata.Base.{String, ◌≡◌, refl, Option, none, some, List, [], ◌∷◌}
use getdata.Base.Dict.{Dict, map_values-id}
use getdata.Model.{
  Value, RuleCondition, Tenant, Product, ProductAccessProfile, ThingModel, ThingModelParameter,
  ThingModelEvent, ThingModelService, Device, DeviceGroup, Rule, RuleAction, ConfigProfile,
  FirmwareArtifact, OtaCampaign, DeviceShadow, Telemetry, Command, AlertEvent,
}
use getdata.Store.Clone.{
  copy_list, copy_each, copy_pointer, clone_string_map, clone_any_map, clone_thing_model_parameters,
  clone_rule_condition, clone_rule_action, clone_rule, clone_thing_model_event,
  clone_thing_model_service, clone_thing_model, clone_access_profile, clone_product, clone_group,
  clone_config_profile, clone_shadow, clone_telemetry, clone_command, clone_firmware_artifact,
  clone_ota_campaign, clone_alert, clone_tenant, clone_device,
}

pub copy_list-id {ℓ} : {A : Type ℓ} (xs : List A) → copy_list xs ≡ xs
unfolding copy_list
copy_list-id [] = refl
copy_list-id (x ∷ xs) = cc (copy_list-id xs)

pub copy_each-id {ℓ} :
    {A : Type ℓ} (f : A → A) → ((a : A) → f a ≡ a) → (xs : List A) → copy_each f xs ≡ xs
unfolding copy_each
copy_each-id f h [] = refl
copy_each-id f h (x ∷ xs) = cc (h x, copy_each-id f h xs)

pub copy_pointer-id {ℓ} : {A : Type ℓ} (o : Option A) → copy_pointer o ≡ o
unfolding copy_pointer
copy_pointer-id none = refl
copy_pointer-id (some a) = refl

pub clone_string_map-id : (m : Dict String) → clone_string_map m ≡ m
unfolding clone_string_map
clone_string_map-id = map_values-id (λ v. v) (λ v. refl)

pub clone_any_map-id : (m : Dict Value) → clone_any_map m ≡ m
unfolding clone_any_map
clone_any_map-id = map_values-id (λ v. v) (λ v. refl)

pub clone_rule_condition-id : (x : RuleCondition) → clone_rule_condition x ≡ x
unfolding clone_rule_condition
clone_rule_condition-id x = refl

pub clone_rule_action-id : (x : RuleAction) → clone_rule_action x ≡ x
unfolding clone_rule_action
clone_rule_action-id x = cc (clone_any_map-id x.params)

pub clone_rule-id : (x : Rule) → clone_rule x ≡ x
unfolding clone_rule
clone_rule-id x = cc (
  clone_rule_condition-id x.condition,
  copy_each-id clone_rule_action clone_rule_action-id x.actions,
)

pub clone_thing_model_parameters-id :
    (xs : List ThingModelParameter) → clone_thing_model_parameters xs ≡ xs
unfolding clone_thing_model_parameters
clone_thing_model_parameters-id = copy_list-id

pub clone_thing_model_event-id : (x : ThingModelEvent) → clone_thing_model_event x ≡ x
unfolding clone_thing_model_event
clone_thing_model_event-id x = cc (clone_thing_model_parameters-id x.output)

pub clone_thing_model_service-id : (x : ThingModelService) → clone_thing_model_service x ≡ x
unfolding clone_thing_model_service
clone_thing_model_service-id x =
    cc (clone_thing_model_parameters-id x.input, clone_thing_model_parameters-id x.output)

pub clone_thing_model-id : (x : ThingModel) → clone_thing_model x ≡ x
unfolding clone_thing_model
clone_thing_model-id x = cc (
  copy_list-id x.properties,
  copy_each-id clone_thing_model_event clone_thing_model_event-id x.events,
  copy_each-id clone_thing_model_service clone_thing_model_service-id x.services,
)

pub clone_access_profile-id : (x : ProductAccessProfile) → clone_access_profile x ≡ x
unfolding clone_access_profile
clone_access_profile-id x = cc (clone_string_map-id x.metadata, copy_list-id x.point_mappings)

pub clone_product-id : (x : Product) → clone_product x ≡ x
unfolding clone_product
clone_product-id x = cc (
  clone_string_map-id x.metadata,
  clone_access_profile-id x.access_profile,
  clone_thing_model-id x.thing_model,
)

pub clone_group-id : (x : DeviceGroup) → clone_group x ≡ x
unfolding clone_group
clone_group-id x = cc (clone_string_map-id x.tags)

pub clone_config_profile-id : (x : ConfigProfile) → clone_config_profile x ≡ x
unfolding clone_config_profile
clone_config_profile-id x = cc (clone_any_map-id x.values, copy_pointer-id x.last_applied_at)

pub clone_shadow-id : (x : DeviceShadow) → clone_shadow x ≡ x
unfolding clone_shadow
clone_shadow-id x = cc (
  clone_any_map-id x.reported,
  clone_any_map-id x.desired,
  copy_pointer-id x.last_reported_at,
  copy_pointer-id x.last_desired_at,
)

pub clone_telemetry-id : (x : Telemetry) → clone_telemetry x ≡ x
unfolding clone_telemetry
clone_telemetry-id x = cc (clone_any_map-id x.values)

pub clone_command-id : (x : Command) → clone_command x ≡ x
unfolding clone_command
clone_command-id x = cc (clone_any_map-id x.params)

pub clone_firmware_artifact-id : (x : FirmwareArtifact) → clone_firmware_artifact x ≡ x
unfolding clone_firmware_artifact
clone_firmware_artifact-id x = cc (clone_string_map-id x.metadata)

pub clone_ota_campaign-id : (x : OtaCampaign) → clone_ota_campaign x ≡ x
unfolding clone_ota_campaign
clone_ota_campaign-id x = cc (copy_pointer-id x.last_dispatched_at)

pub clone_alert-id : (x : AlertEvent) → clone_alert x ≡ x
unfolding clone_alert
clone_alert-id x = cc (copy_pointer-id x.ack_at, copy_pointer-id x.resolved_at)

pub clone_tenant-id : (x : Tenant) → clone_tenant x ≡ x
unfolding clone_tenant
clone_tenant-id x = cc (clone_string_map-id x.metadata)

pub clone_device-id : (x : Device) → clone_device x ≡ x
unfolding clone_device
clone_device-id x = cc (clone_string_map-id x.tags, clone_string_map-id x.metadata)
