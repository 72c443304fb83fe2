-- ===== src/Core/Views/Shows.antt =====
-- The listings of views succeed and show the records that are asked for, in the store's order.
use getdata.Base.{
  String, ◌≡◌, refl, Bool, Bool-cases, true, is_some, subst⁻¹, ◌&&◌, none, some, List, [], ◌∷◌,
  ◌==◌, map, if◌then◌else◌, Result, ok, ◌>>=◌, Error, inl, inr, tenant_not_found, product_not_found,
  group_not_found, device_not_found, firmware_not_found,
}
use getdata.Base.Dict.{Dict, lookup}
use getdata.Base.Text.{trim_space}
use getdata.Model.{Product, Device, Rule, ConfigProfile, FirmwareArtifact, OtaCampaign}
use getdata.Store.{Store, list_at}
use getdata.Store.Sorting.{sort_strings}
use getdata.Store.Clone.{clone_group}
use getdata.Store.Table.{get_at, get_at-cases}
use getdata.Store.Catalog.{
  get_tenant, get_product, get_device, get_group, get_firmware_artifact, list_products,
  list_devices, list_rules, list_config_profiles, list_firmware_artifacts, list_ota_campaigns,
}
use getdata.Store.Groups.{list_group_ids_by_device, require}
use getdata.Core.State.{Service}
use getdata.Core.Views.{
  ProductView, RuleView, ConfigProfileView, DeviceView, FirmwareArtifactView, OtaCampaignView,
  summary, is_tenant_not_found, is_product_not_found, is_group_not_found, is_device_not_found,
  is_firmware_not_found, tenant_summary, product_summary, group_summary, device_summary,
  firmware_summary, group_named, groups_if_known, group_summaries, build_group_summaries,
  build_product_view, build_rule_view, build_config_profile_view, build_device_view,
  build_firmware_artifact_view, build_ota_campaign_view,
}
use getdata.Core.Views.Listing.{
  asked_for, build_each, list_products_by_tenant, list_devices_by_tenant,
  list_config_profiles_by_tenant, list_rules_by_tenant, list_firmware_views, list_campaign_views,
}

-- It succeeds.
abbrev pub IsOk : {A : Type 0} → Result A → Type 0
IsOk {A} r = (a : A) × (r ≡ ok a)

abbrev pub kept : {A : Type 0} → (A → Bool) → List A → List A
kept keep [] = []
kept keep (a ∷ rest) = let others = kept keep rest in if keep a then a ∷ others else others

-- It succeeds, and the views are of these records, in this order.
abbrev pub Shows : {A V : Type 0} → (V → A) → List A → Result (List V) → Type 0
Shows {V} record_of items r = (views : List V) × (r ≡ ok views) × (map record_of views ≡ items)

-- The view is of this record.
abbrev pub IsViewOf : {A V : Type 0} → (V → A) → A → Result V → Type 0
IsViewOf {V} record_of a r = (view : V) × (r ≡ ok view) × (record_of view ≡ a)

build_each-Shows :
    {A V : Type 0} (keep : A → Bool) (build : A → Result V) (record_of : V → A)
    → ((a : A) → IsViewOf record_of a (build a))
    → (items : List A) → Shows record_of (kept keep items) (build_each keep build items)
unfolding build_each
build_each-Shows keep build record_of h [] = ([], refl, refl)
build_each-Shows keep build record_of h (a ∷ rest) =
    let (views, e, m) = build_each-Shows keep build record_of h rest in
    let (view, b, v) = h a in
    elim (Bool-cases (keep a)) [
      | inl k ↦ (view ∷ views, rw (k, b, e) refl, rw k (cc (v, m)))
      | inr k ↦ (views, rw (k, e) refl, rw k m)
    ]

IsViewOf-bind :
    {A B V : Type 0} (record_of : V → A) (a : A) (r : Result B) (next : B → Result V)
    → IsOk r
    → ((b : B) → IsViewOf record_of a (next b))
    → IsViewOf record_of a (r >>= next)
IsViewOf-bind record_of a r next (b, e) h = subst⁻¹ (λ x. IsViewOf record_of a (x >>= next)) e (h b)

IsOk-bind :
    {A B : Type 0} (r : Result A) (next : A → Result B)
    → IsOk r
    → ((a : A) → IsOk (next a))
    → IsOk (r >>= next)
IsOk-bind r next (a, e) h = subst⁻¹ (λ x. IsOk (x >>= next)) e (h a)

-- A read of a table fails only where the record is missing.
summary-IsOk :
    {A B : Type 0} (gone : Error → Bool) (f : A → B) (missing : Error) (clone : A → A) (id : String)
    (m : Dict A)
    → gone missing ≡ true
    → IsOk (summary gone f (get_at missing clone id m))
summary-IsOk gone f missing clone id m h = elim (get_at-cases missing clone id m) [
  | inl (a, e) ↦ subst⁻¹ (λ r. IsOk (summary gone f r)) e (some (f a), refl)
  | inr e ↦ subst⁻¹ (λ r. IsOk (summary gone f r)) e (none, rw h refl)
]

module _ (s : Store) where
  tenant_summary-IsOk : (id : String) → IsOk (tenant_summary id s)
  unfolding tenant_summary get_tenant
  tenant_summary-IsOk id = elim (Bool-cases (trim_space id == "")) [
    | inl h ↦ (none, rw h refl)
    | inr h ↦
        rw h (summary-IsOk is_tenant_not_found _ tenant_not_found _ (trim_space id) s.tenants refl)
  ]

  product_summary-IsOk : (id : String) → IsOk (product_summary id s)
  unfolding product_summary get_product
  product_summary-IsOk id = elim (Bool-cases (id == "")) [
    | inl h ↦ (none, rw h refl)
    | inr h ↦ rw h (summary-IsOk is_product_not_found _ product_not_found _ id s.products refl)
  ]

  group_summary-IsOk : (id : String) → IsOk (group_summary id s)
  unfolding group_summary get_group
  group_summary-IsOk id = elim (Bool-cases (id == "")) [
    | inl h ↦ (none, rw h refl)
    | inr h ↦ rw h (summary-IsOk is_group_not_found _ group_not_found _ id s.groups refl)
  ]

  device_summary-IsOk : (id : String) → IsOk (device_summary id s)
  unfolding device_summary get_device
  device_summary-IsOk id = elim (Bool-cases (id == "")) [
    | inl h ↦ (none, rw h refl)
    | inr h ↦ rw h (summary-IsOk is_device_not_found _ device_not_found _ id s.devices refl)
  ]

  firmware_summary-IsOk : (id : String) → IsOk (firmware_summary id s)
  unfolding firmware_summary get_firmware_artifact
  firmware_summary-IsOk id = elim (Bool-cases (id == "")) [
    | inl h ↦ (none, rw h refl)
    | inr h ↦
        rw h
          (summary-IsOk is_firmware_not_found _ firmware_not_found _ id s.firmware_artifacts refl)
  ]

  group_summaries-IsOk : (ids : List String) → IsOk (group_summaries ids s)
  unfolding group_summaries get_group
  group_summaries-IsOk [] = ([], refl)
  group_summaries-IsOk (id ∷ ids) =
      IsOk-bind _ _
        (summary-IsOk is_group_not_found group_named group_not_found clone_group id s.groups refl)
        (λ found. IsOk-bind _ _ (group_summaries-IsOk ids) (λ others. (_, refl)))

  build_group_summaries-known :
      (device_id : String) → IsOk (groups_if_known (build_group_summaries device_id s))
  unfolding build_group_summaries list_group_ids_by_device require
  build_group_summaries-known device_id = elim (Bool-cases (is_some (lookup device_id s.devices))) [
    | inl h ↦
        let (groups, e) =
          group_summaries-IsOk (sort_strings (list_at device_id s.group_ids_by_device)) in
        (groups, rw (h, e) refl)
    | inr h ↦ ([], rw h refl)
  ]

module _ (s : Service) where
  product_view-IsViewOf :
      (a : Product) → IsViewOf (λ (v : ProductView). v.product) a (build_product_view a s)
  unfolding build_product_view
  product_view-IsViewOf a =
      IsViewOf-bind _ a _ _ (tenant_summary-IsOk s.store a.tenant_id) λ _. (_, refl, refl)

  rule_view-IsViewOf : (a : Rule) → IsViewOf (λ (v : RuleView). v.rule) a (build_rule_view a s)
  unfolding build_rule_view
  rule_view-IsViewOf a = IsViewOf-bind _ a _ _ (tenant_summary-IsOk s.store a.tenant_id) λ _.
      IsViewOf-bind _ a _ _ (product_summary-IsOk s.store a.product_id) λ _.
        IsViewOf-bind _ a _ _ (group_summary-IsOk s.store a.group_id)
          λ _. IsViewOf-bind _ a _ _ (device_summary-IsOk s.store a.device_id) λ _. (_, refl, refl)

  profile_view-IsViewOf :
      (a : ConfigProfile)
      → IsViewOf (λ (v : ConfigProfileView). v.profile) a (build_config_profile_view a s)
  unfolding build_config_profile_view
  profile_view-IsViewOf a =
      IsViewOf-bind _ a _ _ (tenant_summary-IsOk s.store a.tenant_id)
        λ _. IsViewOf-bind _ a _ _ (product_summary-IsOk s.store a.product_id) λ _. (_, refl, refl)

  device_view-IsViewOf :
      (a : Device) → IsViewOf (λ (v : DeviceView). v.device) a (build_device_view a s)
  unfolding build_device_view
  device_view-IsViewOf a = IsViewOf-bind _ a _ _ (tenant_summary-IsOk s.store a.tenant_id) λ _.
      IsViewOf-bind _ a _ _ (product_summary-IsOk s.store a.product_id)
        λ _. IsViewOf-bind _ a _ _ (build_group_summaries-known s.store a.id) λ _. (_, refl, refl)

  artifact_view-IsViewOf :
      (a : FirmwareArtifact)
      → IsViewOf (λ (v : FirmwareArtifactView). v.artifact) a (build_firmware_artifact_view a s)
  unfolding build_firmware_artifact_view
  artifact_view-IsViewOf a =
      IsViewOf-bind _ a _ _ (tenant_summary-IsOk s.store a.tenant_id)
        λ _. IsViewOf-bind _ a _ _ (product_summary-IsOk s.store a.product_id) λ _. (_, refl, refl)

  campaign_view-IsViewOf :
      (a : OtaCampaign)
      → IsViewOf (λ (v : OtaCampaignView). v.campaign) a (build_ota_campaign_view a s)
  unfolding build_ota_campaign_view
  campaign_view-IsViewOf a = IsViewOf-bind _ a _ _ (tenant_summary-IsOk s.store a.tenant_id) λ _.
      IsViewOf-bind _ a _ _ (product_summary-IsOk s.store a.product_id) λ _.
        IsViewOf-bind _ a _ _ (group_summary-IsOk s.store a.group_id) λ _.
          IsViewOf-bind _ a _ _ (device_summary-IsOk s.store a.device_id) λ _.
            IsViewOf-bind _ a _ _ (firmware_summary-IsOk s.store a.firmware_id) λ _. (_, refl, refl)

  module _ (tenant_id product_id : String) where
    -- What is asked for.
    abbrev pub of_tenant : String → Bool
    of_tenant tenant = asked_for (trim_space tenant_id) tenant

    abbrev pub of_both : String → String → Bool
    of_both tenant product = of_tenant tenant && asked_for (trim_space product_id) product

    abbrev pub AllShown : Type 0
    AllShown =
        (Shows (λ (v : ProductView). v.product)
          (kept (λ (x : Product). of_tenant x.tenant_id) (list_products s.store))
          (list_products_by_tenant tenant_id s))
        × (Shows (λ (v : DeviceView). v.device)
            (kept (λ (x : Device). of_both x.tenant_id x.product_id) (list_devices s.store))
            (list_devices_by_tenant tenant_id product_id s))
        × (Shows (λ (v : ConfigProfileView). v.profile)
            (kept (λ (x : ConfigProfile). of_tenant x.tenant_id) (list_config_profiles s.store))
            (list_config_profiles_by_tenant tenant_id s))
        × (Shows (λ (v : RuleView). v.rule)
            (kept (λ (x : Rule). of_tenant x.tenant_id) (list_rules s.store))
            (list_rules_by_tenant tenant_id s))
        × (Shows (λ (v : FirmwareArtifactView). v.artifact)
            (kept (λ (x : FirmwareArtifact). of_both x.tenant_id x.product_id)
              (list_firmware_artifacts s.store))
            (list_firmware_views tenant_id product_id s))
        × (Shows (λ (v : OtaCampaignView). v.campaign)
            (kept (λ (x : OtaCampaign). of_tenant x.tenant_id) (list_ota_campaigns s.store))
            (list_campaign_views tenant_id s))

    -- The listings of products, devices, config profiles, rules, firmware and campaigns succeed, and
    -- show just the records of the tenant, and of the product where one is given, in the store's
    -- order; an empty ID asks for all.
    pub listings-Shows : AllShown
    unfolding list_products_by_tenant list_devices_by_tenant list_config_profiles_by_tenant
        list_rules_by_tenant list_firmware_views list_campaign_views
    listings-Shows = (
      build_each-Shows _ _ _ product_view-IsViewOf (list_products s.store),
      build_each-Shows _ _ _ device_view-IsViewOf (list_devices s.store),
      build_each-Shows _ _ _ profile_view-IsViewOf (list_config_profiles s.store),
      build_each-Shows _ _ _ rule_view-IsViewOf (list_rules s.store),
      build_each-Shows _ _ _ artifact_view-IsViewOf (list_firmware_artifacts s.store),
      build_each-Shows _ _ _ campaign_view-IsViewOf (list_ota_campaigns s.store),
    )
