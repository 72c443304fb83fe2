-- ===== src/Store/Records.antt =====
-- The append-only records of memory.go: telemetry, shadows, commands and alerts. The clock that
-- UpdateCommandStatus reads is its argument `now`.
pub mod Retention
pub mod Commands
use getdata.Base.{
  ℕ, ◌-◌, String, Bool, true, false, Option, none, some, List, [], ◌∷◌, ◌++◌, ◌==◌, ◌&&◌, ltb,
  if◌then◌else◌, length, drop, reversed, Result, ok, err, command_not_found, shadow_not_found,
  alert_not_found,
}
use getdata.Base.Dict.{Dict, lookup, insert}
use getdata.Base.Words.{ℤ, is_pos, to_ℕ}
use getdata.Model.{Time, Telemetry, DeviceShadow, Command, CommandStatus, AlertEvent}
use getdata.Store.{Store, list_at}
use getdata.Store.Clone.{copy_each, clone_telemetry, clone_shadow, clone_command, clone_alert}

-- if len(items) > retention { items = items[len(items)-retention:] }
unfoldable pub cut {ℓ} : {A : Type ℓ} → ℕ → List A → List A
cut retention items =
    if ltb retention (length items) then drop (length items - retention) items else items

-- start := 0; if limit > 0 && len(items) > limit { start = len(items) - limit }; items[start:]
unfoldable pub selected {ℓ} : {A : Type ℓ} → ℤ → List A → List A
unfolding is_pos
selected limit items =
    drop (if is_pos limit && ltb (to_ℕ limit) (length items) then length items - to_ℕ limit else 0)
      items

unfoldable pub append_telemetry : Telemetry → Store → Store
unfolding cut list_at
append_telemetry telemetry s =
    let items =
      list_at telemetry.device_id s.telemetry_by_device ++ (clone_telemetry telemetry ∷ []) in
    record s {
      telemetry_by_device =
          insert telemetry.device_id (cut s.telemetry_retention items) s.telemetry_by_device;
    }

-- The newest first; no limit if it is 0 or negative.
unfoldable pub list_telemetry_by_device : String → ℤ → Store → List Telemetry
unfolding selected copy_each
list_telemetry_by_device device_id limit s =
    copy_each clone_telemetry (reversed (selected limit (list_at device_id s.telemetry_by_device)))

unfoldable pub save_shadow : DeviceShadow → Store → Store
save_shadow shadow s = record s {
  shadows = insert shadow.device_id (clone_shadow shadow) s.shadows;
}

unfoldable pub get_shadow : String → Store → Result DeviceShadow
get_shadow device_id s = elim (lookup device_id s.shadows) [
  | none ↦ err shadow_not_found
  | some shadow ↦ ok (clone_shadow shadow)
]

unfoldable pub save_command : Command → Store → Store
save_command command s = record s {
  command_by_id = insert command.id (clone_command command) s.command_by_id;
  command_ids_by_device =
      insert command.device_id
        (list_at command.device_id s.command_ids_by_device ++ (command.id ∷ []))
        s.command_ids_by_device;
}

unfoldable pub get_command : String → Store → Result Command
get_command command_id s = elim (lookup command_id s.command_by_id) [
  | none ↦ err command_not_found
  | some command ↦ ok (clone_command command)
]

unfoldable pub update_command_status :
    Time → String → CommandStatus → String → Store → Result (Command × Store)
update_command_status now command_id status result s = elim (lookup command_id s.command_by_id) [
  | none ↦ err command_not_found
  | some command ↦
      let updated = record command { status = status; result = result; updated_at = now } in
      ok (
        clone_command updated,
        record s { command_by_id = insert command_id (clone_command updated) s.command_by_id },
      )
]

-- What a map of structs gives at a missing key, which only a wrong index asks for. Its status is the
-- empty text in the source, a value that CommandStatus does not have.
abbrev pub zero_command : Command
zero_command = record {
  id = "";
  device_id = "";
  campaign_id = "";
  name = "";
  params = [];
  status = CommandStatus.pending;
  result = "";
  created_at = 0;
  updated_at = 0;
}

unfoldable pub commands_of : Dict Command → List String → List Command
commands_of m [] = []
commands_of m (id ∷ ids) =
    clone_command (elim (lookup id m) [ none ↦ zero_command | some command ↦ command ])
    ∷ commands_of m ids

unfoldable pub list_commands_by_device : String → ℤ → Store → List Command
unfolding selected commands_of
list_commands_by_device device_id limit s =
    commands_of s.command_by_id
      (reversed (selected limit (list_at device_id s.command_ids_by_device)))

unfoldable pub append_alert : AlertEvent → Store → Store
unfolding cut
append_alert alert s = record s {
  alerts = cut s.alert_retention (s.alerts ++ (clone_alert alert ∷ []));
}

-- The search runs from the newest alert down.
unfoldable pub find_alert : String → List AlertEvent → Option AlertEvent
find_alert id [] = none
find_alert id (a ∷ rest) = if a.id == id then some a else find_alert id rest

unfoldable pub get_alert : String → Store → Result AlertEvent
unfolding find_alert
get_alert alert_id s = elim (find_alert alert_id (reversed s.alerts)) [
  | none ↦ err alert_not_found
  | some alert ↦ ok (clone_alert alert)
]

-- The loop of SaveAlert: the oldest alert of the ID is overwritten.
unfoldable pub replace_alert : AlertEvent → List AlertEvent → Option (List AlertEvent)
replace_alert alert [] = none
replace_alert alert (a ∷ rest) =
    let later = replace_alert alert rest in
    if a.id == alert.id
    then some (clone_alert alert ∷ rest)
    else elim later [ none ↦ none | some rest' ↦ some (a ∷ rest') ]

unfoldable pub save_alert : AlertEvent → Store → Result Store
unfolding replace_alert
save_alert alert s = elim (replace_alert alert s.alerts) [
  | none ↦ err alert_not_found
  | some alerts ↦ ok (record s { alerts = alerts })
]

unfoldable pub list_alerts : ℤ → Store → List AlertEvent
unfolding selected copy_each
list_alerts limit s = copy_each clone_alert (reversed (selected limit s.alerts))
