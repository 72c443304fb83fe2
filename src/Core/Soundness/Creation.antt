-- ===== src/Core/Soundness/Creation.antt =====
-- Creating and changing tenants, products, groups, devices, profiles, artifacts and rules keeps the
-- service sound.
use getdata.Base.{String, refl, Bool, List, Option, none, some, Error, arith}
use getdata.Base.Dict.{Dict}
use getdata.Base.Words.{ℤ}
use getdata.Model.{
  Time, Value, Device, DeviceGroup, Product, ProductAccessProfile, ThingModel, Tenant,
  ConfigProfile, FirmwareArtifact, Rule, RuleCondition, RuleAction,
}
use getdata.Store.Catalog.{
  create_tenant, create_product, save_product, create_group, create_device, create_config_profile,
  create_firmware_artifact, create_rule,
}
use getdata.Core.State.{Env, modify, update}
use getdata.Core.State.Preserves.{
  Preserves, Preserves-pure, Preserves-modify, Preserves-update, preserve_rules,
}
use getdata.Core.Provision.{
  assert_tenant_exists, touch_new, count_device, add_tenant, add_product,
  update_product_thing_model, update_product_access_profile, add_group, add_device,
  add_config_profile, add_firmware_artifact, need_product, product_tenant,
}
use getdata.Core.Provision.CreateRule.{add_rule, group_scope, device_scope, Scope}
use getdata.Core.Soundness.{IsSound}
use getdata.Core.Soundness.Writes.{IsSound-IsStable}
use getdata.Core.Soundness.Tables.{create_group-IsSound, create_device-IsSound}
use getdata.Core.Soundness.Operations.{
  clock-IsSound, new_id-IsSound, new_token-IsSound, touch-IsSound, save_shadow-IsSound,
  when_product-IsSound,
}

create_tenant-keeps : (x : Tenant) → Preserves IsSound (update (create_tenant x))
unfolding create_tenant
create_tenant-keeps x = Preserves-update _ (λ s t h p. IsSound-IsStable.same s _ (ground arith) p)

create_product-keeps : (x : Product) → Preserves IsSound (update (create_product x))
unfolding create_product
create_product-keeps x = Preserves-update _ (λ s t h p. IsSound-IsStable.same s _ (ground arith) p)

save_product-keeps : (x : Product) → Preserves IsSound (update (save_product x))
unfolding save_product
save_product-keeps x = Preserves-update _ (λ s t h p. IsSound-IsStable.same s _ (ground arith) p)

create_config_profile-keeps :
    (x : ConfigProfile) → Preserves IsSound (update (create_config_profile x))
unfolding create_config_profile
create_config_profile-keeps x =
    Preserves-update _ (λ s t h p. IsSound-IsStable.same s _ (ground arith) p)

create_firmware_artifact-keeps :
    (x : FirmwareArtifact) → Preserves IsSound (update (create_firmware_artifact x))
unfolding create_firmware_artifact
create_firmware_artifact-keeps x =
    Preserves-update _ (λ s t h p. IsSound-IsStable.same s _ (ground arith) p)

create_rule-keeps : (x : Rule) → Preserves IsSound (update (create_rule x))
unfolding create_rule
create_rule-keeps x = Preserves-update _ (λ s t h p. IsSound-IsStable.same s _ (ground arith) p)

create_group-keeps : (x : DeviceGroup) → Preserves IsSound (update (create_group x))
create_group-keeps x = Preserves-update _ (create_group-IsSound x)

create_device-keeps : (x : Device) → Preserves IsSound (update (create_device x))
create_device-keeps x = Preserves-update _ (create_device-IsSound x)

count_device-keeps : (env : Env) → Preserves IsSound (modify (count_device env))
count_device-keeps env = Preserves-modify _ (λ s p. IsSound-IsStable.same s _ refl p)

touch_new-keeps :
    (env : Env) (product : Option Product) (id : String) (now : Time)
    → Preserves IsSound (touch_new env product id now)
touch_new-keeps env none id now = Preserves-pure tt
touch_new-keeps env (some product) id now = touch-IsSound env id now

need_product-keeps :
    (env : Env) (product_id : String) (product : Option Product)
    → Preserves IsSound (need_product env product_id product)
need_product-keeps env product_id none = search preserve_rules
need_product-keeps env product_id (some product) = Preserves-pure tt

product_tenant-keeps :
    (tenant_id : String) (product : Option Product) (e : Error)
    → Preserves IsSound (product_tenant tenant_id product e)
product_tenant-keeps tenant_id none e = Preserves-pure tenant_id
product_tenant-keeps tenant_id (some product) e = search preserve_rules

assert_tenant_exists-keeps :
    (tenant_id : String) → Preserves IsSound (assert_tenant_exists tenant_id)
unfolding assert_tenant_exists
assert_tenant_exists-keeps tenant_id = search preserve_rules

ruleset creation_rules = (
  create_tenant-keeps, create_product-keeps, save_product-keeps, create_config_profile-keeps,
  create_firmware_artifact-keeps, create_rule-keeps, create_group-keeps, create_device-keeps,
  count_device-keeps, touch_new-keeps, need_product-keeps, product_tenant-keeps,
  assert_tenant_exists-keeps, clock-IsSound, new_id-IsSound, new_token-IsSound, touch-IsSound,
  save_shadow-IsSound, when_product-IsSound,
)

module _ (env : Env) where
  pub add_tenant-IsSound :
      (name slug description : String) (metadata : Dict String)
      → Preserves IsSound (add_tenant env name slug description metadata)
  unfolding add_tenant
  add_tenant-IsSound name slug description metadata =
      search (preserve_rules, creation_rules) depth 24

  pub add_product-IsSound :
      (tenant_id name description : String) (metadata : Dict String)
      (access_profile : ProductAccessProfile) (thing_model : ThingModel)
      → Preserves IsSound
          (add_product env tenant_id name description metadata access_profile thing_model)
  unfolding add_product
  add_product-IsSound tenant_id name description metadata access_profile thing_model =
      search (preserve_rules, creation_rules) depth 30

  pub update_product_thing_model-IsSound :
      (product_id : String) (thing_model : ThingModel)
      → Preserves IsSound (update_product_thing_model env product_id thing_model)
  unfolding update_product_thing_model
  update_product_thing_model-IsSound product_id thing_model =
      search (preserve_rules, creation_rules) depth 16

  pub update_product_access_profile-IsSound :
      (product_id : String) (access_profile : ProductAccessProfile)
      → Preserves IsSound (update_product_access_profile env product_id access_profile)
  unfolding update_product_access_profile
  update_product_access_profile-IsSound product_id access_profile =
      search (preserve_rules, creation_rules) depth 16

  pub add_group-IsSound :
      (tenant_id name description product_id : String) (tags : Dict String)
      → Preserves IsSound (add_group env tenant_id name description product_id tags)
  unfolding add_group
  add_group-IsSound tenant_id name description product_id tags =
      search (preserve_rules, creation_rules) depth 30

  pub add_device-IsSound :
      (tenant_id name product_id : String) (tags metadata : Dict String)
      → Preserves IsSound (add_device env tenant_id name product_id tags metadata)
  unfolding add_device
  add_device-IsSound tenant_id name product_id tags metadata =
      search (preserve_rules, creation_rules) depth 30

  pub add_config_profile-IsSound :
      (tenant_id name description product_id : String) (values : Dict Value)
      → Preserves IsSound (add_config_profile env tenant_id name description product_id values)
  unfolding add_config_profile
  add_config_profile-IsSound tenant_id name description product_id values =
      search (preserve_rules, creation_rules) depth 30

  pub add_firmware_artifact-IsSound :
      (tenant_id product_id name version file_name url checksum checksum_type : String)
      (size_bytes : ℤ) (metadata : Dict String) (notes : String)
      → Preserves IsSound (
          add_firmware_artifact env tenant_id product_id name version file_name url checksum
            checksum_type size_bytes metadata notes)
  unfolding add_firmware_artifact
  add_firmware_artifact-IsSound tenant_id product_id name version file_name url checksum
        checksum_type size_bytes metadata notes =
      search (preserve_rules, creation_rules) depth 30

  group_scope-keeps :
      (group_id : String) (scope : Scope) → Preserves IsSound (group_scope group_id scope)
  unfolding group_scope
  group_scope-keeps group_id (a, b) = search preserve_rules depth 24

  device_scope-keeps :
      (device_id : String) (scope : Scope) → Preserves IsSound (device_scope device_id scope)
  unfolding device_scope
  device_scope-keeps device_id (a, b) = search preserve_rules depth 24

  pub add_rule-IsSound :
      (tenant_id name description product_id group_id device_id : String) (enabled : Bool)
      (severity : String) (cooldown_seconds : ℤ) (condition : RuleCondition)
      (actions : List RuleAction)
      → Preserves IsSound (
          add_rule env tenant_id name description product_id group_id device_id enabled severity
            cooldown_seconds condition actions)
  unfolding add_rule
  add_rule-IsSound tenant_id name description product_id group_id device_id enabled severity
        cooldown_seconds condition actions =
      search (preserve_rules, creation_rules, group_scope-keeps, device_scope-keeps) depth 40
