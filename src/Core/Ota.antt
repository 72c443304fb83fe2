-- ===== src/Core/Ota.antt =====
-- multitenant_ota.go: OTA campaigns.
pub mod Progress
use getdata.Base.{
  String, Bool, ◌&&◌, ◌||◌, not, Option, none, some, List, [], ◌∷◌, ◌==◌, length, if◌then◌else◌,
  Result, ok, err, Error, nat_eq, invalid_config, ◌%◌,
}
use getdata.Base.Dict.{Dict}
use getdata.Base.Text.{trim_space}
use getdata.Base.Words.{inc64, signed, is_pos, word_mod}
use getdata.Model.{Time, Value, Device, OtaCampaign, OtaCampaignStatus, FirmwareArtifact, Command}
use getdata.Model.Values.{str, int}
use getdata.Store.Catalog.{
  get_device, get_group, get_product, get_firmware_artifact, create_ota_campaign, save_ota_campaign,
  list_devices,
}
use getdata.Store.Groups.{list_device_ids_by_group}
use getdata.Core.State.{
  Env, Action, ◌>>=◌, ◌>>◌, pure, fail, query, gets, update, attempt, read_clock, new_id,
}
use getdata.Core.Shadows.{in_scope}
use getdata.Core.Commands.{send_command_with_campaign}

-- If both are set they must be equal.
abbrev both_in_scope : String → String → Error → Action (Unit {0})
both_in_scope a b e = if b == "" then pure tt else in_scope a b e

-- The product of the target from here on: the given one, else the artifact's.
unfoldable pub target_product : String → FirmwareArtifact → String → Action String
unfolding in_scope
target_product tenant_id artifact product_id =
    if not (product_id == "")
    then (query (get_product product_id) >>= λ product.
        in_scope tenant_id product.tenant_id invalid_config
        >> in_scope artifact.product_id product.id invalid_config
        >> pure product.id)
    else if not (artifact.product_id == "")
    then pure artifact.product_id
    else fail invalid_config

unfoldable pub resolve_ota_target_product :
    String → FirmwareArtifact → String → String → String → Action String
unfolding in_scope target_product
resolve_ota_target_product tenant_id artifact product_id group_id device_id =
    if not (device_id == "")
    then (query (get_device device_id) >>= λ device.
        in_scope tenant_id device.tenant_id invalid_config
        >> in_scope artifact.product_id device.product_id invalid_config
        >> pure device.product_id)
    else if not (group_id == "")
    then (query (get_group group_id) >>= λ group.
        in_scope tenant_id group.tenant_id invalid_config
        >> both_in_scope artifact.product_id group.product_id invalid_config
        >> target_product tenant_id artifact
            (if product_id == "" then group.product_id else product_id))
    else target_product tenant_id artifact product_id

unfoldable pub in_campaign_scope : OtaCampaign → Device → Bool
in_campaign_scope campaign device =
    (campaign.tenant_id == "" || device.tenant_id == campaign.tenant_id)
    && (campaign.product_id == "" || device.product_id == campaign.product_id)

unfoldable pub ids_in_scope : OtaCampaign → List Device → List String
unfolding in_campaign_scope
ids_in_scope campaign [] = []
ids_in_scope campaign (d ∷ rest) =
    let others = ids_in_scope campaign rest in
    if in_campaign_scope campaign d then d.id ∷ others else others

unfoldable pub resolve_ota_target_devices : OtaCampaign → Action (List String)
unfolding ids_in_scope
resolve_ota_target_devices campaign =
    if not (campaign.device_id == "")
    then pure (campaign.device_id ∷ [])
    else if not (campaign.group_id == "")
    then query (list_device_ids_by_group campaign.group_id)
    else gets (λ s. ids_in_scope campaign (list_devices s.store))

abbrev pub upgrade_params : OtaCampaign → FirmwareArtifact → Dict Value
upgrade_params campaign artifact =
    ("campaign_id", str campaign.id)
    ∷ ("firmware_id", str artifact.id)
    ∷ ("name", str artifact.name)
    ∷ ("version", str artifact.version)
    ∷ ("url", str artifact.url)
    ∷ ("checksum", str artifact.checksum)
    ∷ ("checksum_type", str artifact.checksum_type)
    ∷ ("file_name", str artifact.file_name)
    ∷ ("size_bytes", int artifact.size_bytes)
    ∷ []

-- The counts after one send.
unfoldable pub count_send : Result (Command × Option Error) → OtaCampaign → OtaCampaign
count_send (err _) c = record c { failed_count = inc64 c.failed_count }
count_send (ok (_, some _)) c = record c { failed_count = inc64 c.failed_count }
count_send (ok (_, none)) c = record c { dispatched_count = inc64 c.dispatched_count }

unfoldable pub dispatch_status : OtaCampaign → OtaCampaignStatus
dispatch_status c =
    if is_pos (signed c.dispatched_count) && nat_eq c.failed_count 0
    then OtaCampaignStatus.running
    else if is_pos (signed c.dispatched_count)
    then OtaCampaignStatus.partial
    else OtaCampaignStatus.pending

module _ (env : Env) where
  -- The loop over the devices, which counts into a local copy of the campaign.
  unfoldable pub dispatch_each : Dict Value → List String → OtaCampaign → Action OtaCampaign
  unfolding send_command_with_campaign count_send
  dispatch_each params [] campaign = pure campaign
  dispatch_each params (device_id ∷ rest) campaign =
      attempt (send_command_with_campaign env device_id campaign.id "ota_upgrade" params)
      >>= λ sent. dispatch_each params rest (count_send sent campaign)

  abbrev dispatched : Time → OtaCampaign → OtaCampaign
  dispatched now campaign = record campaign {
    last_dispatched_at = some now;
    updated_at = now;
    status = dispatch_status campaign;
  }

  unfoldable pub dispatch_ota_campaign : OtaCampaign → FirmwareArtifact → Action OtaCampaign
  unfolding resolve_ota_target_devices dispatch_each dispatch_status
  dispatch_ota_campaign campaign artifact = do
    device_ids ← resolve_ota_target_devices campaign
    now ← read_clock env
    counted ← dispatch_each (upgrade_params campaign artifact) device_ids (record campaign {
      total_devices = length device_ids % word_mod;
      dispatched_count = 0;
      failed_count = 0;
    })
    update (save_ota_campaign (dispatched now counted))
    pure (dispatched now counted)

  abbrev new_campaign :
      String → String → String → FirmwareArtifact → String → String → String → Time → OtaCampaign
  new_campaign id tenant_id name artifact product_id group_id device_id now = record {
    id = id;
    tenant_id = tenant_id;
    name = name;
    firmware_id = artifact.id;
    product_id = product_id;
    group_id = group_id;
    device_id = device_id;
    status = OtaCampaignStatus.pending;
    total_devices = 0;
    dispatched_count = 0;
    acked_count = 0;
    failed_count = 0;
    last_dispatched_at = none;
    created_at = now;
    updated_at = now;
  }

  -- The tenant of a campaign: the one asked for, else the artifact's; both must agree.
  abbrev campaign_tenant : String → FirmwareArtifact → Action String
  campaign_tenant tenant_id artifact =
      if tenant_id == ""
      then pure artifact.tenant_id
      else if artifact.tenant_id == tenant_id
      then pure tenant_id
      else fail invalid_config

  unfoldable pub create_campaign :
      String → String → String → String → String → String → Action OtaCampaign
  unfolding resolve_ota_target_product dispatch_ota_campaign
  create_campaign tenant_id name firmware_id product_id group_id device_id = do
    if trim_space name == "" || trim_space firmware_id == "" then fail invalid_config else pure tt
    artifact ← query (get_firmware_artifact (trim_space firmware_id))
    tenant ← campaign_tenant (trim_space tenant_id) artifact
    product ←
        resolve_ota_target_product tenant artifact (trim_space product_id) (trim_space group_id)
          (trim_space device_id)
    now ← read_clock env
    id ← new_id env "ota"
    let campaign =
        new_campaign id tenant (trim_space name) artifact product (trim_space group_id)
          (trim_space device_id) now
    update (create_ota_campaign campaign)
    dispatch_ota_campaign campaign artifact
