-- ===== src/Store/Snapshot/RoundTrip.antt =====
-- A snapshot restores the store that it was taken of, but for the order of a group's devices, which
-- no reader sees.
use getdata.Base.{ℕ, String, ◌≡◌, refl, sym, List, [], ◌∷◌, ◌<◌, ltb, arith, if◌then◌else◌}
use getdata.Base.Dict.{Dict, map_values, map_values-id}
use getdata.Store.{Store, list_at}
use getdata.Store.Clone.{
  copy_each, clone_string_slice, clone_telemetry, clone_alert, clone_tenant, clone_product,
  clone_device, clone_group, clone_rule, clone_config_profile, clone_firmware_artifact,
  clone_ota_campaign, clone_shadow, clone_command,
}
use getdata.Store.Clone.Laws.{
  copy_list-id, copy_each-id, clone_telemetry-id, clone_alert-id, clone_tenant-id, clone_product-id,
  clone_device-id, clone_group-id, clone_rule-id, clone_config_profile-id,
  clone_firmware_artifact-id, clone_ota_campaign-id, clone_shadow-id, clone_command-id,
}
use getdata.Store.Sorting.{sort_strings}
use getdata.Store.Sorting.Laws.{sort_strings_idem}
use getdata.Store.Groups.{list_device_ids_by_group}
use getdata.Store.Snapshot.{snapshot, restore, sorted_copy}

clone_string_slice-id : (xs : List String) → clone_string_slice xs ≡ xs
unfolding clone_string_slice
clone_string_slice-id = copy_list-id

pub sorted_copy-eq : (xs : List String) → sorted_copy xs ≡ sort_strings xs
unfolding sorted_copy
sorted_copy-eq xs = rw clone_string_slice-id refl

snapshot-eq :
    (s : Store)
    → snapshot s ≡ record {
      tenants = s.tenants;
      products = s.products;
      devices = s.devices;
      groups = s.groups;
      rules = s.rules;
      config_profiles = s.config_profiles;
      firmware_artifacts = s.firmware_artifacts;
      ota_campaigns = s.ota_campaigns;
      shadows = s.shadows;
      telemetry_by_device = s.telemetry_by_device;
      command_by_id = s.command_by_id;
      command_ids_by_device = s.command_ids_by_device;
      group_ids_by_device = s.group_ids_by_device;
      device_ids_by_group = s.device_ids_by_group;
      alerts = s.alerts;
      telemetry_retention = s.telemetry_retention;
      alert_retention = s.alert_retention;
    }
unfolding snapshot
snapshot-eq s = cc (
  map_values-id clone_tenant clone_tenant-id s.tenants,
  map_values-id clone_product clone_product-id s.products,
  map_values-id clone_device clone_device-id s.devices,
  map_values-id clone_group clone_group-id s.groups,
  map_values-id clone_rule clone_rule-id s.rules,
  map_values-id clone_config_profile clone_config_profile-id s.config_profiles,
  map_values-id clone_firmware_artifact clone_firmware_artifact-id s.firmware_artifacts,
  map_values-id clone_ota_campaign clone_ota_campaign-id s.ota_campaigns,
  map_values-id clone_shadow clone_shadow-id s.shadows,
  map_values-id (copy_each clone_telemetry) (copy_each-id clone_telemetry clone_telemetry-id)
      s.telemetry_by_device,
  map_values-id clone_command clone_command-id s.command_by_id,
  map_values-id clone_string_slice clone_string_slice-id s.command_ids_by_device,
  map_values-id clone_string_slice clone_string_slice-id s.group_ids_by_device,
  map_values-id clone_string_slice clone_string_slice-id s.device_ids_by_group,
  copy_each-id clone_alert clone_alert-id s.alerts,
)

list_at-map_values :
    (f : List String → List String) (k : String) (m : Dict (List String))
    → f [] ≡ []
    → list_at k (map_values f m) ≡ f (list_at k m)
unfolding list_at map_values
list_at-map_values f k [] e = sym e
list_at-map_values f k ((j, xs) ∷ m) e = ground (arith, list_at-map_values f k m e)

kept_retention : (a b : ℕ) → 0 < a → (if ltb 0 a then a else b) ≡ a
kept_retention a b h = ground arith

-- Restoring a snapshot into any store gives the store that it was taken of, with the device list of
-- each group sorted, where the retentions are positive.
pub restore-snapshot :
    (s t : Store)
    → 0 < s.telemetry_retention
    → 0 < s.alert_retention
    → restore (snapshot s) t
      ≡ record s { device_ids_by_group = map_values sorted_copy s.device_ids_by_group }
unfolding restore
restore-snapshot s t h k = rw snapshot-eq (
    cc (
      kept_retention s.telemetry_retention t.telemetry_retention h,
      kept_retention s.alert_retention t.alert_retention k,
      map_values-id clone_tenant clone_tenant-id s.tenants,
      map_values-id clone_product clone_product-id s.products,
      map_values-id clone_device clone_device-id s.devices,
      map_values-id clone_group clone_group-id s.groups,
      map_values-id clone_rule clone_rule-id s.rules,
      map_values-id clone_config_profile clone_config_profile-id s.config_profiles,
      map_values-id clone_firmware_artifact clone_firmware_artifact-id s.firmware_artifacts,
      map_values-id clone_ota_campaign clone_ota_campaign-id s.ota_campaigns,
      map_values-id clone_shadow clone_shadow-id s.shadows,
      map_values-id (copy_each clone_telemetry) (copy_each-id clone_telemetry clone_telemetry-id)
          s.telemetry_by_device,
      map_values-id clone_command clone_command-id s.command_by_id,
      map_values-id clone_string_slice clone_string_slice-id s.command_ids_by_device,
      map_values-id clone_string_slice clone_string_slice-id s.group_ids_by_device,
      copy_each-id clone_alert clone_alert-id s.alerts,
    ))

-- After a snapshot is restored into any store, the devices of each group are listed as before, where
-- the retentions are positive.
pub list_device_ids-restore :
    (s t : Store) (g : String)
    → 0 < s.telemetry_retention
    → 0 < s.alert_retention
    → list_device_ids_by_group g (restore (snapshot s) t) ≡ list_device_ids_by_group g s
unfolding list_device_ids_by_group
list_device_ids-restore s t g h k =
    rw
      (
        restore-snapshot s t h k,
        list_at-map_values sorted_copy g s.device_ids_by_group (sorted_copy-eq []),
        sorted_copy-eq,
        sort_strings_idem,
      )
      refl
