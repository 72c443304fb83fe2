-- ===== src/Store/Clone.antt =====
-- The clone functions of memory.go and tenant_ota.go. They build the copy field by field; that no
-- field is dropped stands in Clone/Laws.
pub mod Laws
use getdata.Base.{String, ◌≡◌, refl, Option, none, some, List, [], ◌∷◌, arith}
use getdata.Base.Dict.{Dict, map_values, map_values-id}
use getdata.Model.{
  Value, RuleCondition, Tenant, Product, ProductAccessProfile, ThingModel, ThingModelParameter,
  ThingModelEvent, ThingModelService, Device, DeviceGroup, Rule, RuleAction, ConfigProfile,
  FirmwareArtifact, OtaCampaign, DeviceShadow, Telemetry, Command, AlertEvent,
}

-- A loop that appends each item to a fresh slice.
unfoldable pub copy_list {ℓ} : {A : Type ℓ} → List A → List A
copy_list [] = []
copy_list (x ∷ xs) = x ∷ copy_list xs

unfoldable pub copy_each {ℓ} : {A : Type ℓ} → (A → A) → List A → List A
copy_each f [] = []
copy_each f (x ∷ xs) = f x ∷ copy_each f xs

-- A pointer is copied with what it points to.
unfoldable pub copy_pointer {ℓ} : {A : Type ℓ} → Option A → Option A
copy_pointer none = none
copy_pointer (some a) = some a

unfoldable pub clone_string_map : Dict String → Dict String
unfolding map_values
clone_string_map = map_values (λ v. v)

unfoldable pub clone_any_map : Dict Value → Dict Value
unfolding map_values
clone_any_map = map_values (λ v. v)

unfoldable pub clone_string_slice : List String → List String
unfolding copy_list
clone_string_slice = copy_list

unfoldable pub clone_tenant : Tenant → Tenant
clone_tenant t = record {
  id = t.id;
  slug = t.slug;
  name = t.name;
  description = t.description;
  metadata = clone_string_map t.metadata;
  created_at = t.created_at;
  updated_at = t.updated_at;
}

unfoldable pub clone_device : Device → Device
clone_device d = record {
  id = d.id;
  tenant_id = d.tenant_id;
  name = d.name;
  product_id = d.product_id;
  product_key = d.product_key;
  token = d.token;
  tags = clone_string_map d.tags;
  metadata = clone_string_map d.metadata;
  created_at = d.created_at;
}

unfoldable pub clone_rule_condition : RuleCondition → RuleCondition
clone_rule_condition x = record { property = x.property; operator = x.operator; value = x.value }

unfoldable pub clone_rule_action : RuleAction → RuleAction
clone_rule_action x = record {
  type = x.type;
  name = x.name;
  params = clone_any_map x.params;
  config_profile_id = x.config_profile_id;
  severity = x.severity;
  message = x.message;
}

unfoldable pub clone_rule : Rule → Rule
clone_rule x = record {
  id = x.id;
  tenant_id = x.tenant_id;
  name = x.name;
  description = x.description;
  product_id = x.product_id;
  group_id = x.group_id;
  device_id = x.device_id;
  enabled = x.enabled;
  severity = x.severity;
  cooldown_seconds = x.cooldown_seconds;
  condition = clone_rule_condition x.condition;
  actions = copy_each clone_rule_action x.actions;
  created_at = x.created_at;
  updated_at = x.updated_at;
}

-- cloneThingModelParameters
unfoldable pub clone_thing_model_parameters : List ThingModelParameter → List ThingModelParameter
unfolding copy_list
clone_thing_model_parameters = copy_list

unfoldable pub clone_thing_model_event : ThingModelEvent → ThingModelEvent
clone_thing_model_event x = record {
  identifier = x.identifier;
  name = x.name;
  output = clone_thing_model_parameters x.output;
  description = x.description;
}

unfoldable pub clone_thing_model_service : ThingModelService → ThingModelService
clone_thing_model_service x = record {
  identifier = x.identifier;
  name = x.name;
  input = clone_thing_model_parameters x.input;
  output = clone_thing_model_parameters x.output;
  description = x.description;
}

unfoldable pub clone_thing_model : ThingModel → ThingModel
clone_thing_model x = record {
  properties = copy_list x.properties;
  events = copy_each clone_thing_model_event x.events;
  services = copy_each clone_thing_model_service x.services;
  version = x.version;
  updated_at = x.updated_at;
}

unfoldable pub clone_access_profile : ProductAccessProfile → ProductAccessProfile
clone_access_profile x = record {
  transport = x.transport;
  protocol = x.protocol;
  ingest_mode = x.ingest_mode;
  payload_format = x.payload_format;
  auth_mode = x.auth_mode;
  sensor_template = x.sensor_template;
  topic = x.topic;
  notes = x.notes;
  metadata = clone_string_map x.metadata;
  point_mappings = copy_list x.point_mappings;
}

unfoldable pub clone_product : Product → Product
clone_product x = record {
  id = x.id;
  tenant_id = x.tenant_id;
  key = x.key;
  name = x.name;
  description = x.description;
  metadata = clone_string_map x.metadata;
  access_profile = clone_access_profile x.access_profile;
  thing_model = clone_thing_model x.thing_model;
  created_at = x.created_at;
  updated_at = x.updated_at;
}

unfoldable pub clone_group : DeviceGroup → DeviceGroup
clone_group x = record {
  id = x.id;
  tenant_id = x.tenant_id;
  name = x.name;
  description = x.description;
  product_id = x.product_id;
  tags = clone_string_map x.tags;
  created_at = x.created_at;
  updated_at = x.updated_at;
}

unfoldable pub clone_config_profile : ConfigProfile → ConfigProfile
clone_config_profile x = record {
  id = x.id;
  tenant_id = x.tenant_id;
  name = x.name;
  description = x.description;
  product_id = x.product_id;
  values = clone_any_map x.values;
  applied_count = x.applied_count;
  last_applied_at = copy_pointer x.last_applied_at;
  created_at = x.created_at;
  updated_at = x.updated_at;
}

unfoldable pub clone_shadow : DeviceShadow → DeviceShadow
clone_shadow x = record {
  device_id = x.device_id;
  product_id = x.product_id;
  reported = clone_any_map x.reported;
  desired = clone_any_map x.desired;
  version = x.version;
  updated_at = x.updated_at;
  last_reported_at = copy_pointer x.last_reported_at;
  last_desired_at = copy_pointer x.last_desired_at;
}

unfoldable pub clone_telemetry : Telemetry → Telemetry
clone_telemetry x = record {
  device_id = x.device_id;
  timestamp = x.timestamp;
  values = clone_any_map x.values;
}

unfoldable pub clone_command : Command → Command
clone_command x = record {
  id = x.id;
  device_id = x.device_id;
  campaign_id = x.campaign_id;
  name = x.name;
  params = clone_any_map x.params;
  status = x.status;
  result = x.result;
  created_at = x.created_at;
  updated_at = x.updated_at;
}

unfoldable pub clone_firmware_artifact : FirmwareArtifact → FirmwareArtifact
clone_firmware_artifact x = record {
  id = x.id;
  tenant_id = x.tenant_id;
  product_id = x.product_id;
  name = x.name;
  version = x.version;
  file_name = x.file_name;
  url = x.url;
  checksum = x.checksum;
  checksum_type = x.checksum_type;
  size_bytes = x.size_bytes;
  notes = x.notes;
  metadata = clone_string_map x.metadata;
  created_at = x.created_at;
  updated_at = x.updated_at;
}

unfoldable pub clone_ota_campaign : OtaCampaign → OtaCampaign
clone_ota_campaign x = record {
  id = x.id;
  tenant_id = x.tenant_id;
  name = x.name;
  firmware_id = x.firmware_id;
  product_id = x.product_id;
  group_id = x.group_id;
  device_id = x.device_id;
  status = x.status;
  total_devices = x.total_devices;
  dispatched_count = x.dispatched_count;
  acked_count = x.acked_count;
  failed_count = x.failed_count;
  last_dispatched_at = copy_pointer x.last_dispatched_at;
  created_at = x.created_at;
  updated_at = x.updated_at;
}

unfoldable pub clone_alert : AlertEvent → AlertEvent
clone_alert x = record {
  id = x.id;
  rule_id = x.rule_id;
  rule_name = x.rule_name;
  tenant_id = x.tenant_id;
  product_id = x.product_id;
  group_id = x.group_id;
  device_id = x.device_id;
  device_name = x.device_name;
  property = x.property;
  operator = x.operator;
  threshold = x.threshold;
  value = x.value;
  severity = x.severity;
  status = x.status;
  message = x.message;
  note = x.note;
  ack_at = copy_pointer x.ack_at;
  resolved_at = copy_pointer x.resolved_at;
  triggered_at = x.triggered_at;
}
