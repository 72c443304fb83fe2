-- ===== src/FileStore/Operations.antt =====
-- The operations of the file store: a change goes through `mutate`, a read asks the memory store.
use getdata.Base.{
  ℕ, ◌+◌, String, Bool, List, Option, none, some, Result, ok, ◌>>=◌, nat_eq, if◌then◌else◌,
}
use getdata.Base.Words.{ℤ}
use getdata.Model.{
  Time, Tenant, Product, Device, DeviceGroup, Rule, ConfigProfile, FirmwareArtifact, OtaCampaign,
  DeviceShadow, Telemetry, Command, CommandStatus, AlertEvent,
}
use getdata.Store.{Store}
use getdata.Store.Catalog
use getdata.Store.Groups
use getdata.Store.Records
use getdata.Store.Snapshot
use getdata.FileStore.{Host, FileStore, Step}
use getdata.FileStore.Persist.{mutate}

unfoldable pub backend_name : String
backend_name = "file"

pub record FileStats : Type 0 where
  -- The figures of the memory store, under the name of this one.
  pub figures : Snapshot.StorageStats
  pub persistence_path : String
  pub last_persisted_at : Option Time
  pub persist_errors : ℕ

-- The change without an answer.
abbrev pub plain : (Store → Result Store) → Store → Result (Unit {0} × Store)
plain change inner = change inner >>= λ t. ok (tt, t)

module _ {Data : Type 0} where
  unfoldable pub persistence_path : FileStore Data → String
  persistence_path s = s.path

  unfoldable pub set_after_persist_hook : Bool → FileStore Data → FileStore Data
  set_after_persist_hook hook s = record s { after_persist = hook }

  -- StorageStats
  unfoldable pub file_stats : FileStore Data → FileStats
  unfolding backend_name
  file_stats s = record {
    figures = record (Snapshot.storage_stats s.inner) { backend = backend_name };
    persistence_path = s.path;
    last_persisted_at = if nat_eq s.last_persisted_at 0 then none else some s.last_persisted_at;
    persist_errors = s.persist_errors;
  }

  unfoldable pub get_tenant : String → FileStore Data → Result Tenant
  get_tenant tenant_id s = Catalog.get_tenant tenant_id s.inner

  unfoldable pub list_tenants : FileStore Data → List Tenant
  list_tenants s = Catalog.list_tenants s.inner

  unfoldable pub get_product : String → FileStore Data → Result Product
  get_product product_id s = Catalog.get_product product_id s.inner

  unfoldable pub list_products : FileStore Data → List Product
  list_products s = Catalog.list_products s.inner

  unfoldable pub get_device : String → FileStore Data → Result Device
  get_device device_id s = Catalog.get_device device_id s.inner

  unfoldable pub list_devices : FileStore Data → List Device
  list_devices s = Catalog.list_devices s.inner

  unfoldable pub get_group : String → FileStore Data → Result DeviceGroup
  get_group group_id s = Catalog.get_group group_id s.inner

  unfoldable pub list_groups : FileStore Data → List DeviceGroup
  list_groups s = Catalog.list_groups s.inner

  unfoldable pub get_rule : String → FileStore Data → Result Rule
  get_rule rule_id s = Catalog.get_rule rule_id s.inner

  unfoldable pub list_rules : FileStore Data → List Rule
  list_rules s = Catalog.list_rules s.inner

  unfoldable pub get_config_profile : String → FileStore Data → Result ConfigProfile
  get_config_profile profile_id s = Catalog.get_config_profile profile_id s.inner

  unfoldable pub list_config_profiles : FileStore Data → List ConfigProfile
  list_config_profiles s = Catalog.list_config_profiles s.inner

  unfoldable pub get_firmware_artifact : String → FileStore Data → Result FirmwareArtifact
  get_firmware_artifact artifact_id s = Catalog.get_firmware_artifact artifact_id s.inner

  unfoldable pub list_firmware_artifacts : FileStore Data → List FirmwareArtifact
  list_firmware_artifacts s = Catalog.list_firmware_artifacts s.inner

  unfoldable pub get_ota_campaign : String → FileStore Data → Result OtaCampaign
  get_ota_campaign campaign_id s = Catalog.get_ota_campaign campaign_id s.inner

  unfoldable pub list_ota_campaigns : FileStore Data → List OtaCampaign
  list_ota_campaigns s = Catalog.list_ota_campaigns s.inner

  unfoldable pub list_group_ids_by_device : String → FileStore Data → Result (List String)
  list_group_ids_by_device device_id s = Groups.list_group_ids_by_device device_id s.inner

  unfoldable pub list_device_ids_by_group : String → FileStore Data → Result (List String)
  list_device_ids_by_group group_id s = Groups.list_device_ids_by_group group_id s.inner

  unfoldable pub list_telemetry_by_device : String → ℤ → FileStore Data → List Telemetry
  list_telemetry_by_device device_id limit s =
      Records.list_telemetry_by_device device_id limit s.inner

  unfoldable pub get_shadow : String → FileStore Data → Result DeviceShadow
  get_shadow device_id s = Records.get_shadow device_id s.inner

  unfoldable pub get_command : String → FileStore Data → Result Command
  get_command command_id s = Records.get_command command_id s.inner

  unfoldable pub list_commands_by_device : String → ℤ → FileStore Data → List Command
  list_commands_by_device device_id limit s =
      Records.list_commands_by_device device_id limit s.inner

  unfoldable pub get_alert : String → FileStore Data → Result AlertEvent
  get_alert alert_id s = Records.get_alert alert_id s.inner

  unfoldable pub list_alerts : ℤ → FileStore Data → List AlertEvent
  list_alerts limit s = Records.list_alerts limit s.inner

module _ (host : Host) where
  unfoldable pub create_tenant : Tenant → Step host.Data (Unit {0})
  unfolding mutate
  create_tenant tenant = mutate host (plain (Catalog.create_tenant tenant))

  unfoldable pub save_tenant : Tenant → Step host.Data (Unit {0})
  unfolding mutate
  save_tenant tenant = mutate host (plain (Catalog.save_tenant tenant))

  unfoldable pub create_product : Product → Step host.Data (Unit {0})
  unfolding mutate
  create_product product = mutate host (plain (Catalog.create_product product))

  unfoldable pub save_product : Product → Step host.Data (Unit {0})
  unfolding mutate
  save_product product = mutate host (plain (Catalog.save_product product))

  unfoldable pub create_device : Device → Step host.Data (Unit {0})
  unfolding mutate
  create_device device = mutate host (plain (Catalog.create_device device))

  unfoldable pub save_device : Device → Step host.Data (Unit {0})
  unfolding mutate
  save_device device = mutate host (plain (Catalog.save_device device))

  unfoldable pub create_group : DeviceGroup → Step host.Data (Unit {0})
  unfolding mutate
  create_group group = mutate host (plain (Catalog.create_group group))

  unfoldable pub save_group : DeviceGroup → Step host.Data (Unit {0})
  unfolding mutate
  save_group group = mutate host (plain (Catalog.save_group group))

  unfoldable pub create_rule : Rule → Step host.Data (Unit {0})
  unfolding mutate
  create_rule rule = mutate host (plain (Catalog.create_rule rule))

  unfoldable pub save_rule : Rule → Step host.Data (Unit {0})
  unfolding mutate
  save_rule rule = mutate host (plain (Catalog.save_rule rule))

  unfoldable pub create_config_profile : ConfigProfile → Step host.Data (Unit {0})
  unfolding mutate
  create_config_profile profile = mutate host (plain (Catalog.create_config_profile profile))

  unfoldable pub save_config_profile : ConfigProfile → Step host.Data (Unit {0})
  unfolding mutate
  save_config_profile profile = mutate host (plain (Catalog.save_config_profile profile))

  unfoldable pub create_firmware_artifact : FirmwareArtifact → Step host.Data (Unit {0})
  unfolding mutate
  create_firmware_artifact artifact =
      mutate host (plain (Catalog.create_firmware_artifact artifact))

  unfoldable pub save_firmware_artifact : FirmwareArtifact → Step host.Data (Unit {0})
  unfolding mutate
  save_firmware_artifact artifact = mutate host (plain (Catalog.save_firmware_artifact artifact))

  unfoldable pub create_ota_campaign : OtaCampaign → Step host.Data (Unit {0})
  unfolding mutate
  create_ota_campaign campaign = mutate host (plain (Catalog.create_ota_campaign campaign))

  unfoldable pub save_ota_campaign : OtaCampaign → Step host.Data (Unit {0})
  unfolding mutate
  save_ota_campaign campaign = mutate host (plain (Catalog.save_ota_campaign campaign))

  unfoldable pub add_device_to_group : String → String → Step host.Data (Unit {0})
  unfolding mutate
  add_device_to_group group_id device_id =
      mutate host (plain (Groups.add_device_to_group group_id device_id))

  unfoldable pub remove_device_from_group : String → String → Step host.Data (Unit {0})
  unfolding mutate
  remove_device_from_group group_id device_id =
      mutate host (plain (Groups.remove_device_from_group group_id device_id))

  unfoldable pub append_telemetry : Telemetry → Step host.Data (Unit {0})
  unfolding mutate
  append_telemetry telemetry =
      mutate host (λ inner. ok (tt, Records.append_telemetry telemetry inner))

  unfoldable pub save_shadow : DeviceShadow → Step host.Data (Unit {0})
  unfolding mutate
  save_shadow shadow = mutate host (λ inner. ok (tt, Records.save_shadow shadow inner))

  unfoldable pub save_command : Command → Step host.Data (Unit {0})
  unfolding mutate
  save_command command = mutate host (λ inner. ok (tt, Records.save_command command inner))

  unfoldable pub append_alert : AlertEvent → Step host.Data (Unit {0})
  unfolding mutate
  append_alert alert = mutate host (λ inner. ok (tt, Records.append_alert alert inner))

  unfoldable pub save_alert : AlertEvent → Step host.Data (Unit {0})
  unfolding mutate
  save_alert alert = mutate host (plain (Records.save_alert alert))

  -- UpdateCommandStatus; the memory store reads the clock.
  unfoldable pub update_command_status : String → CommandStatus → String → Step host.Data Command
  unfolding mutate
  update_command_status command_id status result s =
      mutate host (Records.update_command_status (host.now s.calls) command_id status result)
        (record s { calls = s.calls + 1 })
