-- ===== src/Core/Views/Listing.antt =====
-- The listings of views: ListTenants, and the listings by tenant, each a loop that builds a view of
-- every record that is asked for, and stops at the first error.
use getdata.Base.{
  String, Bool, ◌&&◌, ◌||◌, List, [], ◌∷◌, ◌==◌, map, if◌then◌else◌, Result, ok, ◌>>=◌,
}
use getdata.Base.Text.{trim_space}
use getdata.Model.{
  Tenant, Product, Device, DeviceGroup, Rule, ConfigProfile, FirmwareArtifact, OtaCampaign,
}
use getdata.Store.{Store}
use getdata.Store.Catalog.{
  get_product, get_device, get_group, list_tenants, list_products, list_devices, list_groups,
  list_rules, list_config_profiles, list_firmware_artifacts, list_ota_campaigns,
}
use getdata.Core.State.{Service}
use getdata.Core.Views.{
  TenantView, ProductView, GroupView, RuleView, ConfigProfileView, DeviceView, FirmwareArtifactView,
  OtaCampaignView, count_where, build_product_view, build_group_view, build_rule_view,
  build_config_profile_view, build_device_view, build_firmware_artifact_view,
  build_ota_campaign_view,
}

-- if asked != "" && actual != asked { continue }
abbrev pub asked_for : String → String → Bool
asked_for asked actual = asked == "" || actual == asked

unfoldable pub build_each : {A V : Type 0} → (A → Bool) → (A → Result V) → List A → Result (List V)
build_each keep build [] = ok []
build_each keep build (a ∷ rest) =
    let views = build_each keep build rest in
    if keep a then (build a >>= λ view. views >>= λ others. ok (view ∷ others)) else views

-- The view of a tenant: the records that are its own.
unfoldable pub build_tenant_view : Tenant → Store → TenantView
unfolding count_where list_products list_devices list_groups list_rules list_config_profiles
    list_firmware_artifacts list_ota_campaigns
build_tenant_view tenant s = record {
  tenant = tenant;
  product_count = count_where (λ (x : Product). x.tenant_id == tenant.id) (list_products s);
  device_count = count_where (λ (x : Device). x.tenant_id == tenant.id) (list_devices s);
  group_count = count_where (λ (x : DeviceGroup). x.tenant_id == tenant.id) (list_groups s);
  rule_count = count_where (λ (x : Rule). x.tenant_id == tenant.id) (list_rules s);
  config_profile_count =
      count_where (λ (x : ConfigProfile). x.tenant_id == tenant.id) (list_config_profiles s);
  firmware_count =
      count_where (λ (x : FirmwareArtifact). x.tenant_id == tenant.id) (list_firmware_artifacts s);
  ota_campaign_count =
      count_where (λ (x : OtaCampaign). x.tenant_id == tenant.id) (list_ota_campaigns s);
}

-- ListTenants
unfoldable pub list_tenant_views : Service → List TenantView
unfolding build_tenant_view list_tenants
list_tenant_views s = map (λ t. build_tenant_view t s.store) (list_tenants s.store)

-- GetProduct, GetGroup and GetDevice
unfoldable pub get_product_view : String → Service → Result ProductView
unfolding get_product build_product_view trim_space
get_product_view product_id s =
    get_product (trim_space product_id) s.store >>= λ product. build_product_view product s

unfoldable pub get_group_view : String → Service → Result GroupView
unfolding get_group build_group_view trim_space
get_group_view group_id s =
    get_group (trim_space group_id) s.store >>= λ group. build_group_view group s

unfoldable pub get_device_view : String → Service → Result DeviceView
unfolding get_device build_device_view trim_space
get_device_view device_id s =
    get_device (trim_space device_id) s.store >>= λ device. build_device_view device s

unfoldable pub list_products_by_tenant : String → Service → Result (List ProductView)
unfolding build_each
list_products_by_tenant tenant_id s =
    build_each (λ x. asked_for (trim_space tenant_id) x.tenant_id) (λ x. build_product_view x s)
      (list_products s.store)

unfoldable pub list_groups_by_tenant : String → Service → Result (List GroupView)
unfolding build_each
list_groups_by_tenant tenant_id s =
    build_each (λ x. asked_for (trim_space tenant_id) x.tenant_id) (λ x. build_group_view x s)
      (list_groups s.store)

unfoldable pub list_devices_by_tenant : String → String → Service → Result (List DeviceView)
unfolding build_each
list_devices_by_tenant tenant_id product_id s =
    build_each
      (λ x.
        asked_for (trim_space tenant_id) x.tenant_id
        && asked_for (trim_space product_id) x.product_id)
      (λ x. build_device_view x s) (list_devices s.store)

unfoldable pub list_config_profiles_by_tenant : String → Service → Result (List ConfigProfileView)
unfolding build_each
list_config_profiles_by_tenant tenant_id s =
    build_each (λ x. asked_for (trim_space tenant_id) x.tenant_id)
      (λ x. build_config_profile_view x s) (list_config_profiles s.store)

unfoldable pub list_rules_by_tenant : String → Service → Result (List RuleView)
unfolding build_each
list_rules_by_tenant tenant_id s =
    build_each (λ x. asked_for (trim_space tenant_id) x.tenant_id) (λ x. build_rule_view x s)
      (list_rules s.store)

unfoldable pub list_firmware_views : String → String → Service → Result (List FirmwareArtifactView)
unfolding build_each
list_firmware_views tenant_id product_id s =
    build_each
      (λ x.
        asked_for (trim_space tenant_id) x.tenant_id
        && asked_for (trim_space product_id) x.product_id)
      (λ x. build_firmware_artifact_view x s) (list_firmware_artifacts s.store)

unfoldable pub list_campaign_views : String → Service → Result (List OtaCampaignView)
unfolding build_each
list_campaign_views tenant_id s =
    build_each (λ x. asked_for (trim_space tenant_id) x.tenant_id)
      (λ x. build_ota_campaign_view x s) (list_ota_campaigns s.store)
