-- ===== src/Store/Catalog.antt =====
-- The tables of memory.go and tenant_ota.go: products, devices, groups, rules, config profiles,
-- tenants, firmware artifacts and OTA campaigns.
pub mod Laws
use getdata.Base.{
  String, List, Result, ok, ◌>>=◌, tenant_not_found, tenant_exists, product_not_found,
  product_exists, device_not_found, device_exists, group_not_found, group_exists, rule_not_found,
  rule_exists, config_not_found, config_exists, firmware_not_found, firmware_exists, ota_not_found,
  ota_exists,
}
use getdata.Base.Dict.{values}
use getdata.Model.{
  Tenant, Product, Device, DeviceGroup, Rule, ConfigProfile, FirmwareArtifact, OtaCampaign,
}
use getdata.Store.{Store}
use getdata.Store.Clone.{
  copy_each, clone_tenant, clone_product, clone_device, clone_group, clone_rule,
  clone_config_profile, clone_firmware_artifact, clone_ota_campaign,
}
use getdata.Store.Table.{create_at, save_at, get_at}
use getdata.Store.Sorting.{newest_first}

unfoldable pub create_tenant : Tenant → Store → Result Store
unfolding create_at
create_tenant tenant s = do
  m ← create_at tenant_exists tenant.id (clone_tenant tenant) s.tenants
  ok (record s { tenants = m })

unfoldable pub get_tenant : String → Store → Result Tenant
unfolding get_at
get_tenant id s = get_at tenant_not_found clone_tenant id s.tenants

unfoldable pub save_tenant : Tenant → Store → Result Store
unfolding save_at
save_tenant tenant s = do
  m ← save_at tenant_not_found tenant.id (clone_tenant tenant) s.tenants
  ok (record s { tenants = m })

unfoldable pub list_tenants : Store → List Tenant
unfolding newest_first copy_each
list_tenants s =
    newest_first (λ tenant. tenant.created_at) (copy_each clone_tenant (values s.tenants))

unfoldable pub create_product : Product → Store → Result Store
unfolding create_at
create_product product s = do
  m ← create_at product_exists product.id (clone_product product) s.products
  ok (record s { products = m })

unfoldable pub get_product : String → Store → Result Product
unfolding get_at
get_product id s = get_at product_not_found clone_product id s.products

unfoldable pub save_product : Product → Store → Result Store
unfolding save_at
save_product product s = do
  m ← save_at product_not_found product.id (clone_product product) s.products
  ok (record s { products = m })

unfoldable pub list_products : Store → List Product
unfolding newest_first copy_each
list_products s =
    newest_first (λ product. product.created_at) (copy_each clone_product (values s.products))

unfoldable pub create_device : Device → Store → Result Store
unfolding create_at
create_device device s = do
  m ← create_at device_exists device.id (clone_device device) s.devices
  ok (record s { devices = m })

unfoldable pub get_device : String → Store → Result Device
unfolding get_at
get_device id s = get_at device_not_found clone_device id s.devices

unfoldable pub save_device : Device → Store → Result Store
unfolding save_at
save_device device s = do
  m ← save_at device_not_found device.id (clone_device device) s.devices
  ok (record s { devices = m })

unfoldable pub list_devices : Store → List Device
unfolding newest_first copy_each
list_devices s =
    newest_first (λ device. device.created_at) (copy_each clone_device (values s.devices))

unfoldable pub create_group : DeviceGroup → Store → Result Store
unfolding create_at
create_group group s = do
  m ← create_at group_exists group.id (clone_group group) s.groups
  ok (record s { groups = m })

unfoldable pub get_group : String → Store → Result DeviceGroup
unfolding get_at
get_group id s = get_at group_not_found clone_group id s.groups

unfoldable pub save_group : DeviceGroup → Store → Result Store
unfolding save_at
save_group group s = do
  m ← save_at group_not_found group.id (clone_group group) s.groups
  ok (record s { groups = m })

unfoldable pub list_groups : Store → List DeviceGroup
unfolding newest_first copy_each
list_groups s = newest_first (λ group. group.created_at) (copy_each clone_group (values s.groups))

unfoldable pub create_rule : Rule → Store → Result Store
unfolding create_at
create_rule rule s = do
  m ← create_at rule_exists rule.id (clone_rule rule) s.rules
  ok (record s { rules = m })

unfoldable pub get_rule : String → Store → Result Rule
unfolding get_at
get_rule id s = get_at rule_not_found clone_rule id s.rules

unfoldable pub save_rule : Rule → Store → Result Store
unfolding save_at
save_rule rule s = do
  m ← save_at rule_not_found rule.id (clone_rule rule) s.rules
  ok (record s { rules = m })

unfoldable pub list_rules : Store → List Rule
unfolding newest_first copy_each
list_rules s = newest_first (λ rule. rule.created_at) (copy_each clone_rule (values s.rules))

unfoldable pub create_config_profile : ConfigProfile → Store → Result Store
unfolding create_at
create_config_profile profile s = do
  m ← create_at config_exists profile.id (clone_config_profile profile) s.config_profiles
  ok (record s { config_profiles = m })

unfoldable pub get_config_profile : String → Store → Result ConfigProfile
unfolding get_at
get_config_profile id s = get_at config_not_found clone_config_profile id s.config_profiles

unfoldable pub save_config_profile : ConfigProfile → Store → Result Store
unfolding save_at
save_config_profile profile s = do
  m ← save_at config_not_found profile.id (clone_config_profile profile) s.config_profiles
  ok (record s { config_profiles = m })

unfoldable pub list_config_profiles : Store → List ConfigProfile
unfolding newest_first copy_each
list_config_profiles s =
    newest_first (λ profile. profile.created_at)
      (copy_each clone_config_profile (values s.config_profiles))

unfoldable pub create_firmware_artifact : FirmwareArtifact → Store → Result Store
unfolding create_at
create_firmware_artifact artifact s = do
  m ← create_at firmware_exists artifact.id (clone_firmware_artifact artifact) s.firmware_artifacts
  ok (record s { firmware_artifacts = m })

unfoldable pub get_firmware_artifact : String → Store → Result FirmwareArtifact
unfolding get_at
get_firmware_artifact id s =
    get_at firmware_not_found clone_firmware_artifact id s.firmware_artifacts

unfoldable pub save_firmware_artifact : FirmwareArtifact → Store → Result Store
unfolding save_at
save_firmware_artifact artifact s = do
  m ← save_at firmware_not_found artifact.id (clone_firmware_artifact artifact) s.firmware_artifacts
  ok (record s { firmware_artifacts = m })

unfoldable pub list_firmware_artifacts : Store → List FirmwareArtifact
unfolding newest_first copy_each
list_firmware_artifacts s =
    newest_first (λ artifact. artifact.created_at)
      (copy_each clone_firmware_artifact (values s.firmware_artifacts))

unfoldable pub create_ota_campaign : OtaCampaign → Store → Result Store
unfolding create_at
create_ota_campaign campaign s = do
  m ← create_at ota_exists campaign.id (clone_ota_campaign campaign) s.ota_campaigns
  ok (record s { ota_campaigns = m })

unfoldable pub get_ota_campaign : String → Store → Result OtaCampaign
unfolding get_at
get_ota_campaign id s = get_at ota_not_found clone_ota_campaign id s.ota_campaigns

unfoldable pub save_ota_campaign : OtaCampaign → Store → Result Store
unfolding save_at
save_ota_campaign campaign s = do
  m ← save_at ota_not_found campaign.id (clone_ota_campaign campaign) s.ota_campaigns
  ok (record s { ota_campaigns = m })

unfoldable pub list_ota_campaigns : Store → List OtaCampaign
unfolding newest_first copy_each
list_ota_campaigns s =
    newest_first (λ campaign. campaign.created_at)
      (copy_each clone_ota_campaign (values s.ota_campaigns))
