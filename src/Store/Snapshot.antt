-- ===== src/Store/Snapshot.antt =====
-- internal/store/memory/snapshot.go: the snapshot that the file store persists, and its restoration.
pub mod RoundTrip
use getdata.Base.{ℕ, ◌+◌, String, List, [], ◌∷◌, ltb, if◌then◌else◌, length}
use getdata.Base.Dict.{Dict, map_values}
use getdata.Model.{
  Tenant, Product, Device, DeviceGroup, Rule, ConfigProfile, FirmwareArtifact, OtaCampaign,
  DeviceShadow, Telemetry, Command, AlertEvent,
}
use getdata.Store.{Store}
use getdata.Store.Clone.{
  copy_each, clone_string_slice, clone_telemetry, clone_alert, clone_tenant, clone_product,
  clone_device, clone_group, clone_rule, clone_config_profile, clone_firmware_artifact,
  clone_ota_campaign, clone_shadow, clone_command,
}
use getdata.Store.Sorting.{sort_strings}

pub record Snapshot : Type 0 where
  pub tenants : Dict Tenant
  pub products : Dict Product
  pub devices : Dict Device
  pub groups : Dict DeviceGroup
  pub rules : Dict Rule
  pub config_profiles : Dict ConfigProfile
  pub firmware_artifacts : Dict FirmwareArtifact
  pub ota_campaigns : Dict OtaCampaign
  pub shadows : Dict DeviceShadow
  pub telemetry_by_device : Dict (List Telemetry)
  pub command_by_id : Dict Command
  pub command_ids_by_device : Dict (List String)
  pub group_ids_by_device : Dict (List String)
  pub device_ids_by_group : Dict (List String)
  pub alerts : List AlertEvent
  pub telemetry_retention : ℕ
  pub alert_retention : ℕ

unfoldable pub snapshot : Store → Snapshot
unfolding map_values copy_each clone_string_slice
snapshot s = record {
  tenants = map_values clone_tenant s.tenants;
  products = map_values clone_product s.products;
  devices = map_values clone_device s.devices;
  groups = map_values clone_group s.groups;
  rules = map_values clone_rule s.rules;
  config_profiles = map_values clone_config_profile s.config_profiles;
  firmware_artifacts = map_values clone_firmware_artifact s.firmware_artifacts;
  ota_campaigns = map_values clone_ota_campaign s.ota_campaigns;
  shadows = map_values clone_shadow s.shadows;
  telemetry_by_device = map_values (copy_each clone_telemetry) s.telemetry_by_device;
  command_by_id = map_values clone_command s.command_by_id;
  command_ids_by_device = map_values clone_string_slice s.command_ids_by_device;
  group_ids_by_device = map_values clone_string_slice s.group_ids_by_device;
  device_ids_by_group = map_values clone_string_slice s.device_ids_by_group;
  alerts = copy_each clone_alert s.alerts;
  telemetry_retention = s.telemetry_retention;
  alert_retention = s.alert_retention;
}

-- A copy of the slice, sorted in place.
unfoldable pub sorted_copy : List String → List String
unfolding clone_string_slice sort_strings
sorted_copy values = sort_strings (clone_string_slice values)

-- The lists of devices are sorted, those of groups are not. A retention of 0 is not taken over.
unfoldable pub restore : Snapshot → Store → Store
unfolding map_values copy_each clone_string_slice sorted_copy
restore snapshot s = record {
  tenants = map_values clone_tenant snapshot.tenants;
  products = map_values clone_product snapshot.products;
  devices = map_values clone_device snapshot.devices;
  groups = map_values clone_group snapshot.groups;
  rules = map_values clone_rule snapshot.rules;
  config_profiles = map_values clone_config_profile snapshot.config_profiles;
  firmware_artifacts = map_values clone_firmware_artifact snapshot.firmware_artifacts;
  ota_campaigns = map_values clone_ota_campaign snapshot.ota_campaigns;
  shadows = map_values clone_shadow snapshot.shadows;
  telemetry_by_device = map_values (copy_each clone_telemetry) snapshot.telemetry_by_device;
  command_by_id = map_values clone_command snapshot.command_by_id;
  command_ids_by_device = map_values clone_string_slice snapshot.command_ids_by_device;
  group_ids_by_device = map_values clone_string_slice snapshot.group_ids_by_device;
  device_ids_by_group = map_values sorted_copy snapshot.device_ids_by_group;
  alerts = copy_each clone_alert snapshot.alerts;
  telemetry_retention =
      if ltb 0 snapshot.telemetry_retention
      then snapshot.telemetry_retention
      else s.telemetry_retention;
  alert_retention =
      if ltb 0 snapshot.alert_retention then snapshot.alert_retention else s.alert_retention;
}

-- The figures of StorageStats. The path and the persistence counters belong to the file store.
pub record StorageStats : Type 0 where
  pub backend : String
  pub tenants : ℕ
  pub products : ℕ
  pub devices : ℕ
  pub groups : ℕ
  pub rules : ℕ
  pub config_profiles : ℕ
  pub firmware_artifacts : ℕ
  pub ota_campaigns : ℕ
  pub shadows : ℕ
  pub commands : ℕ
  pub alerts : ℕ
  pub telemetry_series : ℕ
  pub telemetry_samples : ℕ

unfoldable pub count_samples : Dict (List Telemetry) → ℕ
count_samples [] = 0
count_samples ((_, items) ∷ m) = length items + count_samples m

unfoldable pub storage_stats : Store → StorageStats
unfolding count_samples
storage_stats s = record {
  backend = "memory";
  tenants = length s.tenants;
  products = length s.products;
  devices = length s.devices;
  groups = length s.groups;
  rules = length s.rules;
  config_profiles = length s.config_profiles;
  firmware_artifacts = length s.firmware_artifacts;
  ota_campaigns = length s.ota_campaigns;
  shadows = length s.shadows;
  commands = length s.command_by_id;
  alerts = length s.alerts;
  telemetry_series = length s.telemetry_by_device;
  telemetry_samples = count_samples s.telemetry_by_device;
}
