-- ===== src/Core/Shadows.antt =====
-- service.go: device shadows and config profiles.
pub mod Report
use getdata.Base.{
  String, ◌&&◌, not, Option, none, some, [], ◌∷◌, ◌==◌, if◌then◌else◌, Result, ok, err, Error,
  shadow_not_found, invalid_config,
}
use getdata.Base.Dict.{Dict, lookup, insert, erase}
use getdata.Base.Text.{trim_space}
use getdata.Base.Words.{inc64}
use getdata.Model.{Time, Value, Device, Product, DeviceShadow}
use getdata.Store.{Store}
use getdata.Store.Clone.{clone_any_map}
use getdata.Store.Catalog.{get_device, get_product, get_config_profile, save_config_profile}
use getdata.Store.Records.{get_shadow, save_shadow}
use getdata.Core.Values.{values_equal}
use getdata.Core.Values.Validate.{validate_thing_values}
use getdata.Core.State.{
  Env, Action, ◌>>=◌, ◌>>◌, pure, fail, lift, query, gets, write, update, read_clock,
}

-- loadProduct
unfoldable pub load_product : String → Store → Option Product
load_product product_id s =
    let id = trim_space product_id in
    if id == "" then none else elim (get_product id s) [ ok product ↦ some product | err _ ↦ none ]

-- if hasProduct { if err := check(product); err != nil { return err } }
unfoldable pub when_product : Option Product → (Product → Result (Unit {0})) → Action (Unit {0})
when_product none check = pure tt
when_product (some product) check = lift (check product)

-- A scope that is set must be the given one.
unfoldable pub in_scope : String → String → Error → Action (Unit {0})
in_scope scope actual e = if not (scope == "") && not (actual == scope) then fail e else pure tt

abbrev fresh_shadow : Device → Time → DeviceShadow
fresh_shadow device now = record {
  device_id = device.id;
  product_id = device.product_id;
  reported = [];
  desired = [];
  version = 1;
  updated_at = now;
  last_reported_at = none;
  last_desired_at = none;
}

module _ (env : Env) where
  abbrev create_shadow : Device → Action DeviceShadow
  create_shadow device = do
    now ← read_clock env
    write (save_shadow (fresh_shadow device now))
    pure (fresh_shadow device now)

  abbrev pub shadow_or_new : Device → Result DeviceShadow → Action DeviceShadow
  shadow_or_new device (ok shadow) = pure shadow
  shadow_or_new device (err shadow_not_found) = create_shadow device
  shadow_or_new device (err e) = fail e

  unfoldable pub ensure_shadow : Device → Action DeviceShadow
  ensure_shadow device = do
    found ← gets (λ s. get_shadow device.id s.store)
    shadow_or_new device found

  unfoldable pub get_device_shadow : String → Action DeviceShadow
  unfolding ensure_shadow
  get_device_shadow device_id = do
    device ← query (get_device (trim_space device_id))
    ensure_shadow device

abbrev pub desire : Dict Value → Time → DeviceShadow → DeviceShadow
desire desired now shadow = record shadow {
  desired = clone_any_map desired;
  version = inc64 shadow.version;
  updated_at = now;
  last_desired_at = some now;
}

module _ (env : Env) where
  unfoldable pub update_desired_shadow : String → Dict Value → Action DeviceShadow
  unfolding when_product
  update_desired_shadow device_id desired = do
    device ← query (get_device (trim_space device_id))
    product ← gets (λ s. load_product device.product_id s.store)
    when_product product (λ p. validate_thing_values p desired)
    shadow ← ensure_shadow env device
    now ← read_clock env
    write (save_shadow (desire desired now shadow))
    pure (desire desired now shadow)

  unfoldable pub apply_config_profile : String → String → Action DeviceShadow
  unfolding in_scope
  apply_config_profile profile_id device_id = do
    profile ← query (get_config_profile (trim_space profile_id))
    device ← query (get_device (trim_space device_id))
    in_scope profile.tenant_id device.tenant_id invalid_config
    in_scope profile.product_id device.product_id invalid_config
    shadow ← update_desired_shadow device.id profile.values
    now ← read_clock env
    update (
        save_config_profile (record profile {
          applied_count = inc64 profile.applied_count;
          last_applied_at = some now;
          updated_at = now;
        }))
    pure shadow

module _ (sprint : Value → String) where
  -- for key, value := range telemetry.Values
  unfoldable pub report : Dict Value → DeviceShadow → DeviceShadow
  report [] shadow = shadow
  report ((key, value) ∷ rest) shadow = report rest (record shadow {
    reported = insert key value shadow.reported;
    desired = elim (lookup key shadow.desired) [
      | none ↦ shadow.desired
      | some wanted ↦
          if values_equal sprint wanted value then erase key shadow.desired else shadow.desired
    ];
  })
