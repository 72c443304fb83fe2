-- ===== src/Store.antt =====
-- internal/store/memory: the state of the in-memory store. Its operations are in the modules below,
-- each a function of the store; an operation that fails leaves the store as it was. The mutex makes
-- every operation one step, so concurrent use is a sequence of these steps.
pub mod Clone
pub mod Table
pub mod Sorting
pub mod Catalog
pub mod Groups
pub mod Records
pub mod Snapshot
use getdata.Base.{
  ℕ, String, List, [], ◌+◌, ◌*◌, if◌then◌else◌, Option, none, some, ◌≡◌, arith, ◌==◌,
}
use getdata.Base.Dict.{Dict, lookup, insert, lookup-insert}
use getdata.Base.Words.{ℤ, pos, negsuc, le_ℤ, is_pos, signed, to_ℕ}
use getdata.Model.{
  Tenant, Product, Device, DeviceGroup, Rule, ConfigProfile, FirmwareArtifact, OtaCampaign,
  DeviceShadow, Telemetry, Command, AlertEvent,
}

pub record Store : Type 0 where
  pub tenants : Dict Tenant
  pub products : Dict Product
  pub devices : Dict Device
  pub groups : Dict DeviceGroup
  pub rules : Dict Rule
  pub config_profiles : Dict ConfigProfile
  pub firmware_artifacts : Dict FirmwareArtifact
  pub ota_campaigns : Dict OtaCampaign
  pub shadows : Dict DeviceShadow
  pub telemetry_by_device : Dict (List Telemetry)
  pub command_by_id : Dict Command
  pub command_ids_by_device : Dict (List String)
  pub group_ids_by_device : Dict (List String)
  pub device_ids_by_group : Dict (List String)
  pub alerts : List AlertEvent
  -- Positive from `new` on.
  pub telemetry_retention : ℕ
  pub alert_retention : ℕ

-- max(left, right)
unfoldable pub max_int_of : ℤ → ℤ → ℤ
unfolding le_ℤ
max_int_of left right = if le_ℤ left right then right else left

-- `s.m[key]` of a map of slices: a missing key reads as nil.
unfoldable pub list_at {ℓ} : {A : Type ℓ} → String → Dict (List A) → List A
unfolding lookup
list_at k m = elim (lookup k m) [ none ↦ [] | some xs ↦ xs ]

pub list_at-insert {ℓ} :
    {A : Type ℓ} (j k : String) (xs : List A) (m : Dict (List A))
    → list_at j (insert k xs m) ≡ (if k == j then xs else list_at j m)
unfolding list_at
list_at-insert j k xs m = ground (arith, lookup-insert j k xs m)

-- New(telemetryRetention). The doubled retention wraps as an int does.
unfoldable pub new : ℤ → Store
unfolding is_pos signed max_int_of
new telemetry_retention =
    let retention = if is_pos telemetry_retention then to_ℕ telemetry_retention else 200 in
    record {
      tenants = [];
      products = [];
      devices = [];
      groups = [];
      rules = [];
      config_profiles = [];
      firmware_artifacts = [];
      ota_campaigns = [];
      shadows = [];
      telemetry_by_device = [];
      command_by_id = [];
      command_ids_by_device = [];
      group_ids_by_device = [];
      device_ids_by_group = [];
      alerts = [];
      telemetry_retention = retention;
      alert_retention = to_ℕ (max_int_of (signed (retention * 2)) (pos 200));
    }
