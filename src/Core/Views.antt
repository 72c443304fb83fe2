-- ===== src/Core/Views.antt =====
-- service.go and multitenant_ota.go: what the service shows of its records, beside the records of
-- other kinds that they name. The counts of a view are lengths of lists.
pub mod Listing
pub mod Shows
use getdata.Base.{
  ℕ, ◌+◌, String, Bool, true, false, ◌&&◌, ◌||◌, not, Option, none, some, List, [], ◌∷◌, ◌==◌, ltb,
  nat_eq, if◌then◌else◌, Result, ok, err, ◌>>=◌, Error, tenant_not_found, product_not_found,
  group_not_found, device_not_found, firmware_not_found,
}
use getdata.Base.Dict.{Dict}
use getdata.Base.Text.{trim_space, has_prefix}
use getdata.Base.Words.{add64}
use getdata.Model.{
  Time, Tenant, TenantSummary, Product, Device, DeviceGroup, Rule, ConfigProfile, FirmwareArtifact,
  OtaCampaign,
}
use getdata.Store.{Store}
use getdata.Store.Catalog.{
  get_tenant, get_product, get_device, get_group, get_firmware_artifact, list_tenants,
  list_products, list_devices, list_groups, list_rules, list_config_profiles,
  list_firmware_artifacts, list_ota_campaigns,
}
use getdata.Store.Groups.{list_group_ids_by_device, list_device_ids_by_group}
use getdata.Core.State.{DeviceState, RuleRuntimeState, Service, state_of}
use getdata.Core.Sessions.{on_line}
use getdata.Core.Rules.{make_rule_state_key}

pub record ProductSummary : Type 0 where
  pub id : String
  pub key : String
  pub name : String

pub record GroupSummary : Type 0 where
  pub id : String
  pub name : String

pub record DeviceSummary : Type 0 where
  pub id : String
  pub name : String

pub record FirmwareArtifactSummary : Type 0 where
  pub id : String
  pub name : String
  pub version : String

pub record TenantView : Type 0 where
  pub tenant : Tenant
  pub product_count : ℕ
  pub device_count : ℕ
  pub group_count : ℕ
  pub rule_count : ℕ
  pub config_profile_count : ℕ
  pub firmware_count : ℕ
  pub ota_campaign_count : ℕ

pub record ProductView : Type 0 where
  pub product : Product
  pub tenant : Option TenantSummary
  pub device_count : ℕ
  pub online_count : ℕ

pub record GroupView : Type 0 where
  pub group : DeviceGroup
  pub tenant : Option TenantSummary
  pub product : Option ProductSummary
  pub device_count : ℕ
  pub online_count : ℕ

pub record RuleView : Type 0 where
  pub rule : Rule
  pub tenant : Option TenantSummary
  pub product : Option ProductSummary
  pub group : Option GroupSummary
  pub device : Option DeviceSummary
  pub triggered_count : ℕ
  pub last_triggered_at : Option Time

pub record ConfigProfileView : Type 0 where
  pub profile : ConfigProfile
  pub tenant : Option TenantSummary
  pub product : Option ProductSummary

pub record DeviceView : Type 0 where
  pub device : Device
  pub tenant : Option TenantSummary
  pub product : Option ProductSummary
  pub groups : List GroupSummary
  pub online : Bool
  pub connected_at : Option Time
  pub last_seen : Option Time

pub record FirmwareArtifactView : Type 0 where
  pub artifact : FirmwareArtifact
  pub tenant : Option TenantSummary
  pub product : Option ProductSummary

pub record OtaCampaignView : Type 0 where
  pub campaign : OtaCampaign
  pub tenant : Option TenantSummary
  pub product : Option ProductSummary
  pub group : Option GroupSummary
  pub device : Option DeviceSummary
  pub firmware : Option FirmwareArtifactSummary

-- errors.Is(err, store.Err…NotFound)
abbrev pub is_tenant_not_found : Error → Bool
is_tenant_not_found tenant_not_found = true
is_tenant_not_found _ = false

abbrev pub is_product_not_found : Error → Bool
is_product_not_found product_not_found = true
is_product_not_found _ = false

abbrev pub is_group_not_found : Error → Bool
is_group_not_found group_not_found = true
is_group_not_found _ = false

abbrev pub is_device_not_found : Error → Bool
is_device_not_found device_not_found = true
is_device_not_found _ = false

abbrev pub is_firmware_not_found : Error → Bool
is_firmware_not_found firmware_not_found = true
is_firmware_not_found _ = false

-- The summary of what was found, none if it was not there; any other error is passed on.
abbrev pub summary : {A B : Type 0} → (Error → Bool) → (A → B) → Result A → Result (Option B)
summary gone f (ok a) = ok (some (f a))
summary gone f (err e) = if gone e then ok none else err e

-- tenantSummary
unfoldable pub tenant_summary : String → Store → Result (Option TenantSummary)
tenant_summary given s =
    let tenant_id = trim_space given in
    if tenant_id == ""
    then ok none
    else summary is_tenant_not_found
        (λ (t : Tenant). record { id = t.id; slug = t.slug; name = t.name })
        (get_tenant tenant_id s)

-- The product that a record names, if it names one.
unfoldable pub product_summary : String → Store → Result (Option ProductSummary)
product_summary product_id s =
    if product_id == ""
    then ok none
    else summary is_product_not_found
        (λ (p : Product). record { id = p.id; key = p.key; name = p.name })
        (get_product product_id s)

abbrev pub group_named : DeviceGroup → GroupSummary
group_named g = record { id = g.id; name = g.name }

unfoldable pub group_summary : String → Store → Result (Option GroupSummary)
group_summary group_id s =
    if group_id == ""
    then ok none
    else summary is_group_not_found group_named (get_group group_id s)

unfoldable pub device_summary : String → Store → Result (Option DeviceSummary)
device_summary device_id s =
    if device_id == ""
    then ok none
    else summary is_device_not_found (λ (d : Device). record { id = d.id; name = d.name })
        (get_device device_id s)

unfoldable pub firmware_summary : String → Store → Result (Option FirmwareArtifactSummary)
firmware_summary firmware_id s =
    if firmware_id == ""
    then ok none
    else summary is_firmware_not_found
        (λ (a : FirmwareArtifact). record { id = a.id; name = a.name; version = a.version })
        (get_firmware_artifact firmware_id s)

-- for … { count++ } under a test
unfoldable pub count_where : {A : Type 0} → (A → Bool) → List A → ℕ
count_where test [] = 0
count_where test (a ∷ rest) = (if test a then 1 else 0) + count_where test rest

abbrev pub has_session : Dict DeviceState → String → Bool
has_session states device_id = on_line (state_of device_id states).session

-- buildProductView
unfoldable pub build_product_view : Product → Service → Result ProductView
unfolding tenant_summary count_where list_devices
build_product_view product s = do
  tenant ← tenant_summary product.tenant_id s.store
  ok (record {
    product = product;
    tenant = tenant;
    device_count = count_where (λ (d : Device). d.product_id == product.id) (list_devices s.store);
    online_count =
        count_where (λ (d : Device). d.product_id == product.id && has_session s.states d.id)
          (list_devices s.store);
  })

-- buildGroupView
unfoldable pub build_group_view : DeviceGroup → Service → Result GroupView
unfolding tenant_summary product_summary count_where list_device_ids_by_group
build_group_view group s = do
  tenant ← tenant_summary group.tenant_id s.store
  product ← product_summary group.product_id s.store
  device_ids ← list_device_ids_by_group group.id s.store
  ok (record {
    group = group;
    tenant = tenant;
    product = product;
    device_count = count_where (λ (_ : String). true) device_ids;
    online_count = count_where (has_session s.states) device_ids;
  })

-- The later of two times, the first if they are equal.
abbrev pub later_of : Option Time → Time → Option Time
later_of last at =
    if nat_eq at 0
    then last
    else elim last [ none ↦ some at | some before ↦ if ltb before at then some at else some before ]

-- The loop over the run-time states: how often the rule was triggered, and when last.
unfoldable pub sum_triggers : String → Dict RuleRuntimeState → ℕ × Option Time → ℕ × Option Time
unfolding has_prefix
sum_triggers prefix [] seen = seen
sum_triggers prefix ((key, runtime) ∷ states) (count, last) = sum_triggers prefix states (
    if has_prefix key prefix
    then (add64 count runtime.triggered_count, later_of last runtime.last_triggered_at)
    else (count, last))

-- buildRuleView
unfoldable pub build_rule_view : Rule → Service → Result RuleView
unfolding tenant_summary product_summary group_summary device_summary sum_triggers
    make_rule_state_key
build_rule_view rule s = do
  tenant ← tenant_summary rule.tenant_id s.store
  product ← product_summary rule.product_id s.store
  group ← group_summary rule.group_id s.store
  device ← device_summary rule.device_id s.store
  let (count, last) = sum_triggers (make_rule_state_key rule.id "") s.rule_states (0, none)
  ok (record {
    rule = rule;
    tenant = tenant;
    product = product;
    group = group;
    device = device;
    triggered_count = count;
    last_triggered_at = last;
  })

-- buildConfigProfileView
unfoldable pub build_config_profile_view : ConfigProfile → Service → Result ConfigProfileView
unfolding tenant_summary product_summary
build_config_profile_view profile s = do
  tenant ← tenant_summary profile.tenant_id s.store
  product ← product_summary profile.product_id s.store
  ok (record { profile = profile; tenant = tenant; product = product })

-- The loop of buildGroupSummaries; a group that is gone is left out.
unfoldable pub group_summaries : List String → Store → Result (List GroupSummary)
group_summaries [] s = ok []
group_summaries (id ∷ ids) s =
    let rest = group_summaries ids s in
    summary is_group_not_found group_named (get_group id s) >>= λ found.
    rest >>= λ others. ok (elim found [ none ↦ others | some g ↦ g ∷ others ])

-- buildGroupSummaries
unfoldable pub build_group_summaries : String → Store → Result (List GroupSummary)
unfolding group_summaries list_group_ids_by_device
build_group_summaries device_id s = do
  ids ← list_group_ids_by_device device_id s
  group_summaries ids s

-- The groups of a device that is gone are none.
abbrev pub groups_if_known : Result (List GroupSummary) → Result (List GroupSummary)
groups_if_known (ok groups) = ok groups
groups_if_known (err e) = if is_device_not_found e then ok [] else err e

abbrev pub time_or_none : Time → Option Time
time_or_none at = if nat_eq at 0 then none else some at

-- buildDeviceView
unfoldable pub build_device_view : Device → Service → Result DeviceView
unfolding tenant_summary product_summary build_group_summaries
build_device_view device s = do
  tenant ← tenant_summary device.tenant_id s.store
  product ← product_summary device.product_id s.store
  groups ← groups_if_known (build_group_summaries device.id s.store)
  let state = state_of device.id s.states
  ok (record {
    device = device;
    tenant = tenant;
    product = product;
    groups = groups;
    online = on_line state.session;
    connected_at = time_or_none state.connected_at;
    last_seen = time_or_none state.last_seen;
  })

-- buildFirmwareArtifactView
unfoldable pub build_firmware_artifact_view :
    FirmwareArtifact → Service → Result FirmwareArtifactView
unfolding tenant_summary product_summary
build_firmware_artifact_view artifact s = do
  tenant ← tenant_summary artifact.tenant_id s.store
  product ← product_summary artifact.product_id s.store
  ok (record { artifact = artifact; tenant = tenant; product = product })

-- buildOTACampaignView
unfoldable pub build_ota_campaign_view : OtaCampaign → Service → Result OtaCampaignView
unfolding tenant_summary product_summary group_summary device_summary firmware_summary
build_ota_campaign_view campaign s = do
  tenant ← tenant_summary campaign.tenant_id s.store
  product ← product_summary campaign.product_id s.store
  group ← group_summary campaign.group_id s.store
  device ← device_summary campaign.device_id s.store
  firmware ← firmware_summary campaign.firmware_id s.store
  ok (record {
    campaign = campaign;
    tenant = tenant;
    product = product;
    group = group;
    device = device;
    firmware = firmware;
  })
