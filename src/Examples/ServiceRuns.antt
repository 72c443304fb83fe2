-- ===== src/Examples/ServiceRuns.antt =====
-- The service and the gateway: a device that comes online, is sent a command and leaves.
use getdata.Base.{
  ℕ, ◌+◌, Bool, sym, ap, String, ◌≡◌, refl, ◌↔◌, ◌⊎◌, true, false, Option, none, some, List, [],
  ◌∷◌, ok, arith, ◌==◌, All,
}
use getdata.Base.Dict.{Dict, lookup, insert}
use getdata.Base.Words.{pos}
use getdata.Model.{
  Value, CommandStatus, OtaCampaign, OtaCampaignStatus, DeviceMessage, ServerMessage, ThingModel,
  ThingModelProperty, Product, ProductAccessProfile, DeviceShadow,
}
use getdata.Model.Values.{bool, int}
use getdata.Core.State.{Session, Env, Service, state_of, ◌>>=◌, read_clock, modify}
use getdata.Core.Sessions.{register_session}
use getdata.Core.Runs.{Operation, new_service, run, run-IsSound}
use getdata.Core.Soundness.{IsSound}
use getdata.Core.Commands.{send_command_with_campaign}
use getdata.Core.Commands.Outcome.{Told, send_command-Told}
use getdata.Core.Ota.Progress.{after_acks, successes, failures, expected_status, campaign_progress}
use getdata.Core.Shadows.{report}
use getdata.Core.Shadows.Report.{lookup-report, newer, still_wanted}
use getdata.Core.Normalize.ThingModel.{normalize_thing_model}
use getdata.Core.Normalize.ThingModel.Laws.{normalize_thing_model_iff, trimmed_model, IsThingModel}
use getdata.Core.Values.Validate.{validate_thing_values, Fits}
use getdata.Core.Values.Validate.Laws.{validate_thing_values_iff}
use getdata.Core.Views.Shows.{AllShown, listings-Shows}
use getdata.Gateway.{Line, serve, handle_connection}
use getdata.Gateway.Ends.{connection-IsSound, serve_ends, holds_session, as_device}
use getdata.Gateway.Registered.{any_auth, holds-serve}
use getdata.Gateway.Queue.{
  noticed, oldest, Event, sending, writing, happen_all, start, new_client_session, IsQueued,
  queue-IsQueued,
}
use getdata.Examples.StoreRuns.{furnished}

-- A clock that ticks with each reading; every message is taken.
abbrev pub world : Env
world = record {
  now = λ n. n + 1;
  random_hex = λ bytes n. "00ff";
  send = λ n session message. none;
  sprint = λ v. "";
}

abbrev link : Session
link = record { session_id = "conn_1"; transport = some "tcp" }

abbrev calls : List Operation
calls =
    Operation.device "" "lamp" "" [] []
    ∷ Operation.register "dev_00ff" link
    ∷ Operation.telemetry "dev_00ff" 9 (("on", bool true) ∷ [])
    ∷ Operation.command "dev_00ff" "blink" []
    ∷ Operation.unregister "dev_00ff" "conn_1"
    ∷ []

run-IsSound_example : IsSound (run world calls (new_service (pos 2)))
run-IsSound_example = run-IsSound world calls (pos 2)

-- A service over the store with a device and a group.
abbrev pub serving : Service
serving = record (new_service (pos 2)) { store = furnished }

send_command-Told_example : Told (send_command_with_campaign world "dev_1" "" " blink " [] serving)
send_command-Told_example = send_command-Told world "dev_1" "" " blink " [] serving

abbrev upgrade : OtaCampaign
upgrade = record {
  id = "ota_1";
  tenant_id = "";
  name = "v2";
  firmware_id = "fw_1";
  product_id = "prd_1";
  group_id = "";
  device_id = "";
  status = OtaCampaignStatus.running;
  total_devices = 2;
  dispatched_count = 2;
  acked_count = 0;
  failed_count = 0;
  last_dispatched_at = some 5;
  created_at = 4;
  updated_at = 5;
}

abbrev replies : List (CommandStatus × ℕ)
replies = (CommandStatus.acked, 6) ∷ (CommandStatus.failed, 7) ∷ []

campaign_progress_example :
    ((after_acks replies upgrade).acked_count ≡ 0 + successes replies)
    × ((after_acks replies upgrade).failed_count ≡ 0 + failures replies)
    × ((after_acks replies upgrade).status
        ≡ expected_status 2
            (after_acks replies upgrade).acked_count
            (after_acks replies upgrade).failed_count)
campaign_progress_example =
    campaign_progress CommandStatus.acked 6 ((CommandStatus.failed, 7) ∷ []) upgrade (omega arith)
      (omega arith) (omega arith) (omega arith) (omega arith)

abbrev wished : DeviceShadow
wished = record {
  device_id = "dev_1";
  product_id = "";
  reported = [];
  desired = ("on", bool true) ∷ ("level", int (pos 3)) ∷ [];
  version = 1;
  updated_at = 1;
  last_reported_at = none;
  last_desired_at = some 1;
}

abbrev readings : Dict Value
readings = ("on", bool true) ∷ ("level", int (pos 2)) ∷ []

lookup-report_example :
    (lookup "on" (report world.sprint readings wished).reported
      ≡ newer (lookup "on" readings) (lookup "on" wished.reported))
    × (lookup "on" (report world.sprint readings wished).desired
        ≡ still_wanted world.sprint (lookup "on" readings) (lookup "on" wished.desired))
unfolding lookup
lookup-report_example = lookup-report world.sprint readings wished "on" (refl, (refl, tt))

abbrev on_property : ThingModelProperty
on_property = record {
  identifier = " on ";
  name = "On";
  data_type = "bool";
  access_mode = "";
  required = false;
  description = "";
}

abbrev switch : ThingModel
switch = record {
  properties = on_property ∷ [];
  events = [];
  services = [];
  version = 0;
  updated_at = 0;
}

normalize_thing_model_iff_example :
    (normalize_thing_model switch 1 9 ≡ ok (trimmed_model switch 1 9)) ↔ (
      (trimmed_model switch 1 9 ≡ trimmed_model switch 1 9)
      × IsThingModel (trimmed_model switch 1 9))
normalize_thing_model_iff_example = normalize_thing_model_iff switch (trimmed_model switch 1 9) 1 9

abbrev no_profile : ProductAccessProfile
no_profile = record {
  transport = "tcp";
  protocol = "tcp_json";
  ingest_mode = "gateway_tcp";
  payload_format = "json_values";
  auth_mode = "token";
  sensor_template = "";
  topic = "";
  notes = "";
  metadata = [];
  point_mappings = [];
}

abbrev bulb : Product
bulb = record {
  id = "prd_1";
  tenant_id = "";
  key = "pk_1";
  name = "bulb";
  description = "";
  metadata = [];
  access_profile = no_profile;
  thing_model = switch;
  created_at = 1;
  updated_at = 1;
}

validate_thing_values_iff_example :
    (validate_thing_values bulb readings ≡ ok tt)
    ↔ ((bulb.thing_model.properties ≡ []) ⊎ All (Fits bulb.thing_model.properties) readings)
validate_thing_values_iff_example = validate_thing_values_iff bulb readings

abbrev message : String → DeviceMessage
message type = record {
  type = type;
  device_id = "dev_1";
  token = "t";
  ts = pos 0;
  values = [];
  command_id = "";
  status = "";
  message = "";
}

abbrev line : String → Line
line type = record { decoded = some (message type); bytes = 20 }

connection-IsSound_example :
    IsSound
      (handle_connection world "conn_1" (line "auth" ∷ line "ping" ∷ []) (new_service (pos 2))).1
unfolding new_service run
connection-IsSound_example =
    connection-IsSound world "conn_1" (line "auth" ∷ line "ping" ∷ []) (new_service (pos 2))
      (run-IsSound world [] (pos 2))

abbrev asks_auth : Option DeviceMessage → Bool
asks_auth none = false
asks_auth (some m) = m.type == "auth"

serve_ends_example :
    holds_session world link "dev_1"
      (serve world link (as_device world link "dev_1") (line "ping" ∷ []) serving).1
    ≡ false
serve_ends_example =
    serve_ends world link "dev_1" (line "ping" ∷ []) serving (λ e. absurd (cc e))
      (λ m e. sym (ap asks_auth e), tt)

-- The device has this connection's session.
abbrev registered : Service
registered = (register_session world "dev_1" link serving).1

registered-holds : holds_session world link "dev_1" registered ≡ true
unfolding register_session ◌>>=◌ read_clock modify state_of lookup insert new_service
registered-holds = refl

holds-serve_example :
    holds_session world link "dev_1"
      (serve world link
        (as_device world link "dev_1")
        (line "ping" ∷ line "auth" ∷ line "ping" ∷ [])
        registered).1
    ≡ any_auth (line "ping" ∷ line "auth" ∷ line "ping" ∷ [])
holds-serve_example =
    holds-serve world link "dev_1" (line "ping" ∷ line "auth" ∷ line "ping" ∷ []) registered
      (λ e. absurd (cc e)) registered-holds

abbrev pong : ServerMessage
pong = record {
  type = "pong";
  server_time = pos 1;
  device_id = "";
  command_id = "";
  name = "";
  params = [];
  status = "";
  message = "";
  error = "";
}

abbrev events : List Event
events =
    sending pong
    ∷ sending pong
    ∷ writing (oldest none)
    ∷ sending pong
    ∷ writing (oldest (some "timeout"))
    ∷ writing noticed
    ∷ sending pong
    ∷ []

queue-IsQueued_example : IsQueued (happen_all events (start (new_client_session (pos 1))))
queue-IsQueued_example = queue-IsQueued events (pos 1)

listings-Shows_example : AllShown serving "" "prd_1"
listings-Shows_example = listings-Shows serving "" "prd_1"
