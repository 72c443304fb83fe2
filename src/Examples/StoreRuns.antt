-- ===== src/Examples/StoreRuns.antt =====
-- The store: two devices, a group, telemetry and a command.
use getdata.Base.{String, ◌≡◌, refl, List, [], ◌∷◌, reversed, take_last}
use getdata.Base.Dict.{insert}
use getdata.Base.Words.{pos}
use getdata.Model.{Device, DeviceGroup, Telemetry}
use getdata.Store.{Store, new, list_at}
use getdata.Base.{All, ok, ◌==◌, if◌then◌else◌, arith, none}
use getdata.Base.Dict.{map_values, lookup}
use getdata.Store.Clone.{clone_command, clone_any_map}
use getdata.Model.Values.{int}
use getdata.Model.{AlertEvent, AlertStatus, Command, CommandStatus}
use getdata.Store.Snapshot.{snapshot, restore, sorted_copy}
use getdata.Store.Snapshot.RoundTrip.{restore-snapshot, list_device_ids-restore}
use getdata.Store.Groups.{list_device_ids_by_group}
use getdata.Store.Records.{
  save_command, get_command, update_command_status, list_commands_by_device,
}
use getdata.Store.Records.Commands.{
  IsIndexed, new-IsIndexed, save_command-IsIndexed, update-IsIndexed, get-update, list_commands-All,
}
use getdata.Store.Groups.{add_device_to_group, remove_device_from_group}
use getdata.Store.Groups.Invariant.{IsMirrored, new-IsMirrored, add-IsMirrored, remove-IsMirrored}
use getdata.Store.Records.{list_telemetry_by_device, list_alerts}
use getdata.Store.Records.Retention.{
  shown, append_all, of_device, list-append_all, append_alerts, list_alerts-append_alerts,
}

abbrev pub empty : Store
empty = new (pos 2)

abbrev pub lamp : Device
lamp = record {
  id = "dev_1";
  tenant_id = "";
  name = "lamp";
  product_id = "";
  product_key = "";
  token = "t";
  tags = [];
  metadata = [];
  created_at = 5;
}

abbrev pub hall : DeviceGroup
hall = record {
  id = "grp_1";
  tenant_id = "";
  name = "hall";
  description = "";
  product_id = "";
  tags = ("floor", "1") ∷ [];
  created_at = 6;
  updated_at = 6;
}

abbrev lamp_report : String → Telemetry
lamp_report d = record { device_id = d; timestamp = 7; values = [] }

abbrev reports : List Telemetry
reports = lamp_report "dev_1" ∷ lamp_report "dev_2" ∷ lamp_report "dev_1" ∷ lamp_report "dev_1" ∷ []

list-append_all_example :
    list_telemetry_by_device "dev_1" (pos 1) (append_all reports (new (pos 2)))
    ≡ reversed
        (take_last (shown (pos 1) (new (pos 2)).telemetry_retention) (of_device "dev_1" reports))
list-append_all_example = list-append_all "dev_1" (pos 1) (pos 2) reports

-- The store with the device and the group.
abbrev pub furnished : Store
furnished = record empty { devices = ("dev_1", lamp) ∷ []; groups = ("grp_1", hall) ∷ [] }

furnished-IsMirrored : IsMirrored furnished
unfolding new list_at
furnished-IsMirrored = record {
  mirrored = v.mirrored;
  groups_distinct = v.groups_distinct;
  devices_distinct = v.devices_distinct;
  known_group = λ g d m. cc;
  known_device = λ g d m. cc;
}
  where
    v : IsMirrored empty
    v = new-IsMirrored (pos 2)

abbrev pub joined : Store
joined = record furnished {
  group_ids_by_device = ("dev_1", "grp_1" ∷ []) ∷ [];
  device_ids_by_group = ("grp_1", "dev_1" ∷ []) ∷ [];
}

add-IsMirrored_example : IsMirrored joined
unfolding new add_device_to_group list_at insert
add-IsMirrored_example = add-IsMirrored "grp_1" "dev_1" furnished joined furnished-IsMirrored refl

abbrev parted : Store
parted = record furnished {
  group_ids_by_device = ("dev_1", []) ∷ [];
  device_ids_by_group = ("grp_1", []) ∷ [];
}

joined-IsMirrored : IsMirrored joined
unfolding new add_device_to_group list_at insert
joined-IsMirrored = add-IsMirrored "grp_1" "dev_1" furnished joined furnished-IsMirrored refl

remove-IsMirrored_example : IsMirrored parted
unfolding new remove_device_from_group list_at insert
remove-IsMirrored_example = remove-IsMirrored "grp_1" "dev_1" joined parted joined-IsMirrored refl

abbrev pub fire_alarm : String → AlertEvent
fire_alarm id = record {
  id = id;
  rule_id = "rul_1";
  rule_name = "heat";
  tenant_id = "";
  product_id = "";
  group_id = "";
  device_id = "dev_1";
  device_name = "lamp";
  property = "t";
  operator = "gt";
  threshold = int (pos 50);
  value = int (pos 60);
  severity = "warning";
  status = AlertStatus.new;
  message = "hot";
  note = "";
  ack_at = none;
  resolved_at = none;
  triggered_at = 9;
}

abbrev pub alarms : List AlertEvent
alarms = fire_alarm "alt_1" ∷ fire_alarm "alt_2" ∷ fire_alarm "alt_3" ∷ []

list_alerts-append_alerts_example :
    list_alerts (pos 2) (append_alerts alarms (new (pos 2)))
    ≡ reversed (take_last (shown (pos 2) (new (pos 2)).alert_retention) alarms)
list_alerts-append_alerts_example = list_alerts-append_alerts (pos 2) (pos 2) alarms

restore-snapshot_example :
    restore (snapshot joined) empty
    ≡ record joined { device_ids_by_group = map_values sorted_copy joined.device_ids_by_group }
unfolding new
restore-snapshot_example = restore-snapshot joined empty (omega arith) (omega arith)

list_device_ids-restore_example :
    list_device_ids_by_group "grp_1" (restore (snapshot joined) empty)
    ≡ list_device_ids_by_group "grp_1" joined
unfolding new
list_device_ids-restore_example =
    list_device_ids-restore joined empty "grp_1" (omega arith) (omega arith)

abbrev blink : Command
blink = record {
  id = "cmd_1";
  device_id = "dev_1";
  campaign_id = "";
  name = "blink";
  params = [];
  status = CommandStatus.pending;
  result = "";
  created_at = 8;
  updated_at = 8;
}

abbrev ordered : Store
ordered = save_command blink empty

save_command-IsIndexed_example : IsIndexed ordered
unfolding get_command new lookup
save_command-IsIndexed_example = save_command-IsIndexed blink empty refl (new-IsIndexed (pos 2))

ordered-IsIndexed : IsIndexed ordered
unfolding get_command new lookup
ordered-IsIndexed = save_command-IsIndexed blink empty refl (new-IsIndexed (pos 2))

abbrev done : Command
done = record blink { status = CommandStatus.acked; result = "ok"; updated_at = 9 }

abbrev answered : Store
answered = record ordered { command_by_id = ("cmd_1", done) ∷ [] }

update-IsIndexed_example : IsIndexed answered
unfolding update_command_status save_command new insert list_at clone_command clone_any_map lookup
update-IsIndexed_example =
    update-IsIndexed 9 "cmd_1" CommandStatus.acked "ok" ordered answered done refl ordered-IsIndexed

get-update_example :
    (done ≡ record blink { status = CommandStatus.acked; result = "ok"; updated_at = 9 })
    × ((k : String)
        → get_command k answered ≡ (if "cmd_1" == k then ok done else get_command k ordered))
unfolding update_command_status save_command get_command new insert list_at clone_command
    clone_any_map lookup
get-update_example =
    get-update 9 "cmd_1" CommandStatus.acked "ok" ordered answered done blink refl refl

list_commands-All_example :
    All (λ (c : Command). c.device_id ≡ "dev_1") (list_commands_by_device "dev_1" (pos 5) ordered)
list_commands-All_example = list_commands-All "dev_1" (pos 5) ordered ordered-IsIndexed
