-- ===== src/Core/Commands.antt =====
-- automation.go and service.go: sending a command to a device, and its acknowledgement.
pub mod Outcome
use getdata.Base.{
  ℕ, ◌-◌, ◌/◌, String, ◌&&◌, not, Option, none, some, [], ◌∷◌, ◌==◌, if◌then◌else◌, leb, contains,
  Result, ok, err, Error, unnamed, device_offline, command_not_found,
}
use getdata.Base.Dict.{Dict}
use getdata.Base.Text.{trim_space}
use getdata.Base.Words.{ℤ, pos, negsuc, inc64, add64, ge64, signed, is_pos}
use getdata.Model.{
  Time, Value, Command, CommandStatus, OtaCampaign, OtaCampaignStatus, ServerMessage,
}
use getdata.Store.Clone.{clone_any_map}
use getdata.Store.Catalog.{get_device, get_ota_campaign, save_ota_campaign}
use getdata.Store.Records.{save_command, get_command, update_command_status}
use getdata.Core.Values.Validate.{validate_command_name}
use getdata.Core.Normalize.{lower_trim}
use getdata.Core.State.{
  Session, Env, Service, Action, state_of, ◌>>=◌, ◌>>◌, pure, fail, query, gets, modify, write,
  update, commit, attempt, read_clock, new_id, deliver,
}
use getdata.Core.Sessions.{session_transport_name, record_command_published, touch_device}
use getdata.Core.Shadows.{load_product, when_product}

-- The milliseconds from year 1 to 1970.
abbrev pub epoch_millis : ℕ
epoch_millis = 62135596800000

-- time.UnixMilli
unfoldable pub unix_milli : Time → ℤ
unix_milli t =
    let ms = t / 1000000 in
    if leb epoch_millis ms then pos (ms - epoch_millis) else negsuc (epoch_millis - ms - 1)

abbrev pub new_command : String → String → String → String → Dict Value → Time → Command
new_command id device_id campaign_id name params now = record {
  id = id;
  device_id = device_id;
  campaign_id = trim_space campaign_id;
  name = name;
  params = clone_any_map params;
  status = CommandStatus.pending;
  result = "";
  created_at = now;
  updated_at = now;
}

abbrev pub command_message : Command → Time → ServerMessage
command_message command now = record {
  type = "command";
  server_time = unix_milli now;
  device_id = "";
  command_id = command.id;
  name = command.name;
  params = clone_any_map command.params;
  status = "";
  message = "";
  error = "";
}

abbrev pub count_command_sent : Service → Service
count_command_sent s = record s {
  counters = record s.counters { commands_sent = inc64 s.counters.commands_sent };
}

-- The first argument is what to keep when the update failed.
abbrev or_else : {A : Type 0} → A → Result A → A
or_else a (ok b) = b
or_else a (err _) = a

module _ (env : Env) where
  -- UpdateCommandStatus with the clock that it reads.
  abbrev pub update_status : String → CommandStatus → String → Action Command
  update_status command_id status result = do
    now ← read_clock env
    commit (update_command_status now command_id status result)

  -- The command is marked as failed and returned together with the error.
  unfoldable pub mark_failed : Command → String → Error → Action (Command × Option Error)
  mark_failed command result e = do
    updated ← attempt (update_status command.id CommandStatus.failed result)
    pure (or_else command updated, some e)

  unfoldable pub mark_sent : Command → Session → Time → Action (Command × Option Error)
  unfolding session_transport_name record_command_published touch_device
  mark_sent command session now = do
    updated ← update_status command.id CommandStatus.sent "sent"
    modify count_command_sent
    modify (record_command_published (session_transport_name session))
    modify (touch_device command.device_id now)
    pure (updated, none)

  unfoldable pub send_over : Command → Time → Option Session → Action (Command × Option Error)
  unfolding mark_failed mark_sent
  send_over command now none = mark_failed command "device offline" device_offline
  send_over command now (some session) = do
    failed ← deliver env session (command_message command now)
    elim failed [
      | some text ↦ mark_failed command text (unnamed text)
      | none ↦ mark_sent command session now
    ]

  -- An error before the command is stored fails; a later one comes with the stored command.
  unfoldable pub send_command_with_campaign :
      String → String → String → Dict Value → Action (Command × Option Error)
  unfolding when_product load_product send_over
  send_command_with_campaign device_id campaign_id name params = do
    device ← query (get_device device_id)
    if trim_space name == "" then fail (unnamed "command name is required") else pure tt
    product ← gets (λ s. load_product device.product_id s.store)
    when_product product (λ p. validate_command_name p (trim_space name))
    now ← read_clock env
    id ← new_id env "cmd"
    write (save_command (new_command id device_id campaign_id (trim_space name) params now))
    session ← gets (λ s. (state_of device_id s.states).session)
    send_over (new_command id device_id campaign_id (trim_space name) params now) now session

  unfoldable pub send_command : String → String → Dict Value → Action (Command × Option Error)
  unfolding send_command_with_campaign
  send_command device_id name params = send_command_with_campaign device_id "" name params

-- The counts of a campaign after an acknowledgement.
unfoldable pub count_ack : CommandStatus → OtaCampaign → OtaCampaign
count_ack CommandStatus.failed c = record c { failed_count = inc64 c.failed_count }
count_ack _ c = record c { acked_count = inc64 c.acked_count }

-- The status that follows from the counts.
unfoldable pub progress : OtaCampaign → OtaCampaignStatus
progress c =
    if ge64 (add64 c.acked_count c.failed_count) c.total_devices && is_pos (signed c.total_devices)
    then (if is_pos (signed c.failed_count)
        then OtaCampaignStatus.partial
        else OtaCampaignStatus.completed)
    else if is_pos (signed c.dispatched_count)
    then OtaCampaignStatus.running
    else c.status

unfoldable pub acknowledged : CommandStatus → Time → OtaCampaign → OtaCampaign
unfolding count_ack progress
acknowledged status now c =
    let counted = count_ack status c in
    record counted { status = progress counted; updated_at = now }

-- failed, error and timeout are failures; every other word is a success.
unfoldable pub ack_status : String → CommandStatus
ack_status status =
    if contains (lower_trim status) ("failed" ∷ "error" ∷ "timeout" ∷ [])
    then CommandStatus.failed
    else CommandStatus.acked

abbrev pub count_command_ack : Service → Service
count_command_ack s = record s {
  counters = record s.counters { command_acks = inc64 s.counters.command_acks };
}

module _ (env : Env) where
  unfoldable pub update_campaign_from_command_ack : String → CommandStatus → Action (Unit {0})
  unfolding acknowledged
  update_campaign_from_command_ack campaign_id status = do
    campaign ← query (get_ota_campaign campaign_id)
    now ← read_clock env
    update (save_ota_campaign (acknowledged status now campaign))

  unfoldable pub handle_command_ack : String → String → String → String → Action (Unit {0})
  unfolding update_campaign_from_command_ack ack_status touch_device
  handle_command_ack device_id command_id status result = do
    command ← query (get_command command_id)
    if not (command.device_id == device_id) then fail command_not_found else pure tt
    _ ← update_status env command_id (ack_status status) (trim_space result)
    _ ←
        if command.campaign_id == ""
        then pure (ok tt)
        else attempt (update_campaign_from_command_ack command.campaign_id (ack_status status))
    modify count_command_ack
    now ← read_clock env
    modify (touch_device device_id now)
