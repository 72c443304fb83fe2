-- ===== src/Store/Catalog/Laws.antt =====
-- Each table of the store keeps the promise of a table (Store/Table).
use getdata.Base.{
  arith, eq_iff, tenant_not_found, tenant_exists, product_not_found, product_exists,
  device_not_found, device_exists, group_not_found, group_exists, rule_not_found, rule_exists,
  config_not_found, config_exists, firmware_not_found, firmware_exists, ota_not_found, ota_exists,
}
use getdata.Base.Dict.{insert, lookup-insert}
use getdata.Model.{
  Tenant, Product, Device, DeviceGroup, Rule, ConfigProfile, FirmwareArtifact, OtaCampaign,
}
use getdata.Store.{Store}
use getdata.Store.Clone.{
  clone_tenant, clone_product, clone_device, clone_group, clone_rule, clone_config_profile,
  clone_firmware_artifact, clone_ota_campaign,
}
use getdata.Store.Clone.Laws.{
  clone_tenant-id, clone_product-id, clone_device-id, clone_group-id, clone_rule-id,
  clone_config_profile-id, clone_firmware_artifact-id, clone_ota_campaign-id,
}
use getdata.Store.Table.{IsTable, get_at-cases}
use getdata.Store.Catalog.{
  create_tenant, save_tenant, get_tenant, create_product, save_product, get_product, create_device,
  save_device, get_device, create_group, save_group, get_group, create_rule, save_rule, get_rule,
  create_config_profile, save_config_profile, get_config_profile, create_firmware_artifact,
  save_firmware_artifact, get_firmware_artifact, create_ota_campaign, save_ota_campaign,
  get_ota_campaign,
}

abbrev pub put_tenant : Tenant → Store → Store
put_tenant tenant s = record s { tenants = insert tenant.id tenant s.tenants }

abbrev pub TenantsAreTable : Type 0
TenantsAreTable =
    IsTable (λ (tenant : Tenant). tenant.id) create_tenant save_tenant put_tenant get_tenant
      tenant_not_found tenant_exists

tenants-IsTable : TenantsAreTable
unfolding create_tenant save_tenant get_tenant
tenants-IsTable = record {
  get-put =
      λ a s k. ground (arith, lookup-insert k a.id a s.tenants, clone_tenant-id a, eq_iff a.id k);
  create_fresh = λ a s h. ground (arith, clone_tenant-id a);
  create_taken = λ a b s h. ground arith;
  save_taken = λ a b s h. ground (arith, clone_tenant-id a);
  save_missing = λ a s h. ground arith;
  get_total = λ k s. get_at-cases tenant_not_found clone_tenant k s.tenants;
}

abbrev pub put_product : Product → Store → Store
put_product product s = record s { products = insert product.id product s.products }

abbrev pub ProductsAreTable : Type 0
ProductsAreTable =
    IsTable (λ (product : Product). product.id) create_product save_product put_product get_product
      product_not_found product_exists

products-IsTable : ProductsAreTable
unfolding create_product save_product get_product
products-IsTable = record {
  get-put =
      λ a s k. ground (arith, lookup-insert k a.id a s.products, clone_product-id a, eq_iff a.id k);
  create_fresh = λ a s h. ground (arith, clone_product-id a);
  create_taken = λ a b s h. ground arith;
  save_taken = λ a b s h. ground (arith, clone_product-id a);
  save_missing = λ a s h. ground arith;
  get_total = λ k s. get_at-cases product_not_found clone_product k s.products;
}

abbrev pub put_device : Device → Store → Store
put_device device s = record s { devices = insert device.id device s.devices }

abbrev pub DevicesAreTable : Type 0
DevicesAreTable =
    IsTable (λ (device : Device). device.id) create_device save_device put_device get_device
      device_not_found device_exists

devices-IsTable : DevicesAreTable
unfolding create_device save_device get_device
devices-IsTable = record {
  get-put =
      λ a s k. ground (arith, lookup-insert k a.id a s.devices, clone_device-id a, eq_iff a.id k);
  create_fresh = λ a s h. ground (arith, clone_device-id a);
  create_taken = λ a b s h. ground arith;
  save_taken = λ a b s h. ground (arith, clone_device-id a);
  save_missing = λ a s h. ground arith;
  get_total = λ k s. get_at-cases device_not_found clone_device k s.devices;
}

abbrev pub put_group : DeviceGroup → Store → Store
put_group group s = record s { groups = insert group.id group s.groups }

abbrev pub GroupsAreTable : Type 0
GroupsAreTable =
    IsTable (λ (group : DeviceGroup). group.id) create_group save_group put_group get_group
      group_not_found group_exists

groups-IsTable : GroupsAreTable
unfolding create_group save_group get_group
groups-IsTable = record {
  get-put =
      λ a s k. ground (arith, lookup-insert k a.id a s.groups, clone_group-id a, eq_iff a.id k);
  create_fresh = λ a s h. ground (arith, clone_group-id a);
  create_taken = λ a b s h. ground arith;
  save_taken = λ a b s h. ground (arith, clone_group-id a);
  save_missing = λ a s h. ground arith;
  get_total = λ k s. get_at-cases group_not_found clone_group k s.groups;
}

abbrev pub put_rule : Rule → Store → Store
put_rule rule s = record s { rules = insert rule.id rule s.rules }

abbrev pub RulesAreTable : Type 0
RulesAreTable =
    IsTable (λ (rule : Rule). rule.id) create_rule save_rule put_rule get_rule rule_not_found
      rule_exists

rules-IsTable : RulesAreTable
unfolding create_rule save_rule get_rule
rules-IsTable = record {
  get-put = λ a s k. ground (arith, lookup-insert k a.id a s.rules, clone_rule-id a, eq_iff a.id k);
  create_fresh = λ a s h. ground (arith, clone_rule-id a);
  create_taken = λ a b s h. ground arith;
  save_taken = λ a b s h. ground (arith, clone_rule-id a);
  save_missing = λ a s h. ground arith;
  get_total = λ k s. get_at-cases rule_not_found clone_rule k s.rules;
}

abbrev pub put_config_profile : ConfigProfile → Store → Store
put_config_profile profile s = record s {
  config_profiles = insert profile.id profile s.config_profiles;
}

abbrev pub ConfigProfilesAreTable : Type 0
ConfigProfilesAreTable =
    IsTable (λ (profile : ConfigProfile). profile.id) create_config_profile save_config_profile
      put_config_profile get_config_profile config_not_found config_exists

config_profiles-IsTable : ConfigProfilesAreTable
unfolding create_config_profile save_config_profile get_config_profile
config_profiles-IsTable = record {
  get-put = λ a s k.
      ground
        (arith, lookup-insert k a.id a s.config_profiles, clone_config_profile-id a, eq_iff a.id k);
  create_fresh = λ a s h. ground (arith, clone_config_profile-id a);
  create_taken = λ a b s h. ground arith;
  save_taken = λ a b s h. ground (arith, clone_config_profile-id a);
  save_missing = λ a s h. ground arith;
  get_total = λ k s. get_at-cases config_not_found clone_config_profile k s.config_profiles;
}

abbrev pub put_firmware_artifact : FirmwareArtifact → Store → Store
put_firmware_artifact artifact s = record s {
  firmware_artifacts = insert artifact.id artifact s.firmware_artifacts;
}

abbrev pub FirmwareArtifactsAreTable : Type 0
FirmwareArtifactsAreTable =
    IsTable (λ (artifact : FirmwareArtifact). artifact.id) create_firmware_artifact
      save_firmware_artifact put_firmware_artifact get_firmware_artifact firmware_not_found
      firmware_exists

firmware_artifacts-IsTable : FirmwareArtifactsAreTable
unfolding create_firmware_artifact save_firmware_artifact get_firmware_artifact
firmware_artifacts-IsTable = record {
  get-put = λ a s k. ground (
    arith,
    lookup-insert k a.id a s.firmware_artifacts,
    clone_firmware_artifact-id a,
    eq_iff a.id k,
  );
  create_fresh = λ a s h. ground (arith, clone_firmware_artifact-id a);
  create_taken = λ a b s h. ground arith;
  save_taken = λ a b s h. ground (arith, clone_firmware_artifact-id a);
  save_missing = λ a s h. ground arith;
  get_total = λ k s. get_at-cases firmware_not_found clone_firmware_artifact k s.firmware_artifacts;
}

abbrev pub put_ota_campaign : OtaCampaign → Store → Store
put_ota_campaign campaign s = record s {
  ota_campaigns = insert campaign.id campaign s.ota_campaigns;
}

abbrev pub OtaCampaignsAreTable : Type 0
OtaCampaignsAreTable =
    IsTable (λ (campaign : OtaCampaign). campaign.id) create_ota_campaign save_ota_campaign
      put_ota_campaign get_ota_campaign ota_not_found ota_exists

ota_campaigns-IsTable : OtaCampaignsAreTable
unfolding create_ota_campaign save_ota_campaign get_ota_campaign
ota_campaigns-IsTable = record {
  get-put = λ a s k.
      ground
        (arith, lookup-insert k a.id a s.ota_campaigns, clone_ota_campaign-id a, eq_iff a.id k);
  create_fresh = λ a s h. ground (arith, clone_ota_campaign-id a);
  create_taken = λ a b s h. ground arith;
  save_taken = λ a b s h. ground (arith, clone_ota_campaign-id a);
  save_missing = λ a s h. ground arith;
  get_total = λ k s. get_at-cases ota_not_found clone_ota_campaign k s.ota_campaigns;
}

-- Each of the eight tables keeps the promise of a table: a record that is created or saved is read
-- back as it was, no other key and no other part of the store changes, creating is refused where the
-- ID is taken and saving where it is not.
pub tables-IsTable :
    TenantsAreTable × ProductsAreTable × DevicesAreTable × GroupsAreTable × RulesAreTable
    × ConfigProfilesAreTable × FirmwareArtifactsAreTable × OtaCampaignsAreTable
tables-IsTable = (
  tenants-IsTable, products-IsTable, devices-IsTable, groups-IsTable, rules-IsTable,
  config_profiles-IsTable, firmware_artifacts-IsTable, ota_campaigns-IsTable,
)
