-- ===== src/Core/Provision.antt =====
-- service.go and multitenant_ota.go: creating tenants, products, groups, devices, config profiles
-- and firmware artifacts, and changing a product.
pub mod Rules
pub mod CreateRule
use getdata.Base.{
  ℕ, String, Bool, true, false, ◌||◌, ◌&&◌, not, Option, none, some, List, [], ◌∷◌, ◌==◌,
  if◌then◌else◌, Result, ok, err, Error, tenant_exists, invalid_product, invalid_group,
  invalid_config, product_not_found, leb, nat_eq,
}
use getdata.Base.Dict.{Dict}
use getdata.Base.Text.{trim_space, to_lower, trim}
use getdata.Base.Words.{ℤ, inc64}
use Prim.Native.Char.{Char, code}
use Prim.Native.String.{[] as nil, ◌∷◌ as ◌::◌}
use getdata.Model.{
  Time, Value, Tenant, Product, ProductAccessProfile, ThingModel, DeviceGroup, Device, DeviceShadow,
  ConfigProfile, FirmwareArtifact,
}
use getdata.Store.Clone.{clone_string_map, clone_any_map}
use getdata.Store.Catalog.{
  get_tenant, create_tenant, list_tenants, get_product, create_product, save_product, create_group,
  create_device, create_config_profile, create_firmware_artifact,
}
use getdata.Store.Records.{save_shadow}
use getdata.Core.Values.Validate.{validate_thing_values}
use getdata.Core.Normalize.ThingModel.{normalize_thing_model}
use getdata.Core.Normalize.AccessProfile.{normalize_access_profile, validate_access_mappings}
use getdata.Core.State.{
  Env, Service, Action, ◌>>=◌, ◌>>◌, pure, fail, lift, query, gets, modify, write, update,
  read_clock, new_id, new_token,
}
use getdata.Core.Sessions.{touch_device}
use getdata.Core.Shadows.{load_product, when_product}

abbrev keeps_letter : ℕ → Bool
keeps_letter c = leb 97 c && leb c 122 || leb 48 c && leb c 57

-- The loop of normalizeTenantSlug: a run of other characters becomes one dash.
unfoldable pub slug_of : Bool → String → String
slug_of last_dash nil = ""
slug_of last_dash (c :: rest) =
    let after_letter = slug_of false rest in
    let after_dash = slug_of true rest in
    if keeps_letter (code c)
    then c :: after_letter
    else if last_dash
    then after_dash
    else "-" :: after_dash

unfoldable pub normalize_tenant_slug : String → String → String
unfolding slug_of trim
normalize_tenant_slug slug name =
    let asked = trim_space (to_lower slug) in
    let raw = if asked == "" then trim_space (to_lower name) else asked in
    let result = trim (λ c. nat_eq c 45) (slug_of false raw) in
    if result == "" then "tenant" else result

unfoldable pub has_slug : String → List Tenant → Bool
has_slug slug [] = false
has_slug slug (t ∷ rest) = t.slug == slug || has_slug slug rest

-- A text that may not be empty.
abbrev pub need : String → Error → Action (Unit {0})
need text e = if text == "" then fail e else pure tt

-- assertTenantExists
unfoldable pub assert_tenant_exists : String → Action (Unit {0})
assert_tenant_exists tenant_id =
    if trim_space tenant_id == ""
    then pure tt
    else query (get_tenant (trim_space tenant_id)) >>= λ _. pure tt

-- The tenant of what is created for an owner: the one asked for, else the owner's; both must agree.
abbrev pub same_tenant : String → String → Error → Action String
same_tenant tenant_id owner e =
    if tenant_id == "" then pure owner else if owner == tenant_id then pure tenant_id else fail e

-- The product that is asked for, if one is.
abbrev pub asked_product : String → Action (Option Product)
asked_product product_id =
    if product_id == ""
    then pure none
    else query (get_product product_id) >>= λ product. pure (some product)

abbrev pub product_tenant : String → Option Product → Error → Action String
product_tenant tenant_id none e = pure tenant_id
product_tenant tenant_id (some product) e = same_tenant tenant_id product.tenant_id e

abbrev key_of : Option Product → String
key_of none = ""
key_of (some product) = product.key

module _ (env : Env) where
  unfoldable pub add_tenant : String → String → String → Dict String → Action Tenant
  unfolding normalize_tenant_slug has_slug
  add_tenant name slug description metadata = do
    need (trim_space name) invalid_product
    existing ← gets (λ s. list_tenants s.store)
    if has_slug (normalize_tenant_slug slug (trim_space name)) existing
        then fail tenant_exists
        else pure tt
    now ← read_clock env
    id ← new_id env "ten"
    let tenant : Tenant = record {
      id = id;
      slug = normalize_tenant_slug slug (trim_space name);
      name = trim_space name;
      description = trim_space description;
      metadata = clone_string_map metadata;
      created_at = now;
      updated_at = now;
    }
    update (create_tenant tenant)
    pure tenant

  unfoldable pub add_product :
      String → String → String → Dict String → ProductAccessProfile → ThingModel → Action Product
  unfolding assert_tenant_exists
  add_product tenant_id name description metadata access_profile thing_model = do
    assert_tenant_exists (trim_space tenant_id)
    need (trim_space name) invalid_product
    now ← read_clock env
    normal_model ← lift (normalize_thing_model thing_model 1 now)
    normal_profile ← lift (normalize_access_profile access_profile)
    lift (validate_access_mappings normal_model normal_profile)
    id ← new_id env "prd"
    key ← new_id env "pk"
    let product : Product = record {
      id = id;
      tenant_id = trim_space tenant_id;
      key = key;
      name = trim_space name;
      description = trim_space description;
      metadata = clone_string_map metadata;
      access_profile = normal_profile;
      thing_model = normal_model;
      created_at = now;
      updated_at = now;
    }
    update (create_product product)
    pure product

  unfoldable pub update_product_thing_model : String → ThingModel → Action Product
  update_product_thing_model product_id thing_model = do
    product ← query (get_product (trim_space product_id))
    now ← read_clock env
    model ← lift (normalize_thing_model thing_model (inc64 product.thing_model.version) now)
    update (save_product (record product { thing_model = model; updated_at = now }))
    pure (record product { thing_model = model; updated_at = now })

  unfoldable pub update_product_access_profile : String → ProductAccessProfile → Action Product
  update_product_access_profile product_id access_profile = do
    product ← query (get_product (trim_space product_id))
    profile ← lift (normalize_access_profile access_profile)
    lift (validate_access_mappings product.thing_model profile)
    now ← read_clock env
    update (save_product (record product { access_profile = profile; updated_at = now }))
    pure (record product { access_profile = profile; updated_at = now })

  unfoldable pub add_group : String → String → String → String → Dict String → Action DeviceGroup
  unfolding assert_tenant_exists
  add_group tenant_id name description product_id tags = do
    need (trim_space name) invalid_group
    assert_tenant_exists (trim_space tenant_id)
    product ← asked_product (trim_space product_id)
    tenant ← product_tenant (trim_space tenant_id) product invalid_group
    now ← read_clock env
    id ← new_id env "grp"
    let group : DeviceGroup = record {
      id = id;
      tenant_id = tenant;
      name = trim_space name;
      description = trim_space description;
      product_id = trim_space product_id;
      tags = clone_string_map tags;
      created_at = now;
      updated_at = now;
    }
    update (create_group group)
    pure group

  -- A device of a product counts as seen when it is created.
  abbrev pub touch_new : Option Product → String → Time → Action (Unit {0})
  touch_new none id now = pure tt
  touch_new (some _) id now = modify (touch_device id now)

  abbrev pub count_device : Service → Service
  count_device s = record s {
    counters = record s.counters { registered_devices = inc64 s.counters.registered_devices };
  }

  abbrev pub first_shadow : Device → Time → DeviceShadow
  first_shadow device now = record {
    device_id = device.id;
    product_id = device.product_id;
    reported = [];
    desired = [];
    version = 1;
    updated_at = now;
    last_reported_at = none;
    last_desired_at = none;
  }

  unfoldable pub add_device : String → String → String → Dict String → Dict String → Action Device
  unfolding assert_tenant_exists touch_device
  add_device tenant_id name product_id tags metadata = do
    assert_tenant_exists (trim_space tenant_id)
    product ← asked_product (trim_space product_id)
    tenant ← product_tenant (trim_space tenant_id) product invalid_product
    now ← read_clock env
    id ← new_id env "dev"
    token ← new_token env
    let device : Device = record {
      id = id;
      tenant_id = tenant;
      name = if trim_space name == "" then "device" else trim_space name;
      product_id = trim_space product_id;
      product_key = key_of product;
      token = token;
      tags = clone_string_map tags;
      metadata = clone_string_map metadata;
      created_at = now;
    }
    update (create_device device)
    write (save_shadow (first_shadow device now))
    touch_new product id now
    modify count_device
    pure device

  abbrev pub need_product : String → Option Product → Action (Unit {0})
  need_product product_id none = if product_id == "" then pure tt else fail product_not_found
  need_product product_id (some _) = pure tt

  unfoldable pub add_config_profile :
      String → String → String → String → Dict Value → Action ConfigProfile
  unfolding assert_tenant_exists
  add_config_profile tenant_id name description product_id values = do
    need (trim_space name) invalid_config
    assert_tenant_exists (trim_space tenant_id)
    product ← gets (λ s. load_product (trim_space product_id) s.store)
    need_product (trim_space product_id) product
    tenant ← product_tenant (trim_space tenant_id) product invalid_config
    when_product product (λ p. validate_thing_values p values)
    now ← read_clock env
    id ← new_id env "cfg"
    let profile : ConfigProfile = record {
      id = id;
      tenant_id = tenant;
      name = trim_space name;
      description = trim_space description;
      product_id = trim_space product_id;
      values = clone_any_map values;
      applied_count = 0;
      last_applied_at = none;
      created_at = now;
      updated_at = now;
    }
    update (create_config_profile profile)
    pure profile

  unfoldable pub add_firmware_artifact :
      String
      → String
      → String
      → String
      → String
      → String
      → String
      → String
      → ℤ
      → Dict String
      → String
      → Action FirmwareArtifact
  unfolding assert_tenant_exists
  add_firmware_artifact tenant_id product_id name version file_name url checksum checksum_type
        size_bytes metadata notes =
      do
        need (trim_space name) invalid_config
        need (trim_space version) invalid_config
        need (trim_space url) invalid_config
        assert_tenant_exists (trim_space tenant_id)
        product ← asked_product (trim_space product_id)
        tenant ← product_tenant (trim_space tenant_id) product invalid_config
        now ← read_clock env
        id ← new_id env "fw"
        let artifact : FirmwareArtifact = record {
          id = id;
          tenant_id = tenant;
          product_id = trim_space product_id;
          name = trim_space name;
          version = trim_space version;
          file_name = trim_space file_name;
          url = trim_space url;
          checksum = trim_space checksum;
          checksum_type = trim_space checksum_type;
          size_bytes = size_bytes;
          notes = trim_space notes;
          metadata = clone_string_map metadata;
          created_at = now;
          updated_at = now;
        }
        update (create_firmware_artifact artifact)
        pure artifact
