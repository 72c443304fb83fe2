-- ===== src/Examples/MqttRuns.antt =====
-- The payloads and the MQTT server: a device connects, sends a payload and is cut off.
use getdata.Base.{All, ◌≡◌, refl, true, none, some, List, [], ◌∷◌, ok, ◌↔◌}
use getdata.Base.Dict.{Dict, lookup, insert}
use getdata.Base.Words.{pos}
use getdata.Model.{Value, ProductAccessProfile}
use getdata.Model.Values.{float, str, finite}
use getdata.Core.State.{Service, ◌>>=◌, attempt, query, pure, modify}
use getdata.Core.Sessions.{authenticate_device}
use getdata.Store.Catalog.{get_device}
use getdata.Store.Clone.{clone_device}
use getdata.Core.Soundness.{IsSound}
use getdata.Core.Catalog.{protocol_catalog, serves, serves-protocol_catalog}
use getdata.Core.Runs.{Operation, new_service, run, run-IsSound}
use getdata.Ingest.{
  Platform, build_values, extract_timestamp, filter_reserved_payload_keys, resolve_mapped_values,
  filled,
}
use getdata.Ingest.Laws.{lookup-resolve, last_mapped, build_values-filled}
use getdata.Ingest.Times.{Found, extract_timestamp-Found}
use getdata.Mqtt.Topics.{resolve_routing, mqtt_topic_match, parts}
use getdata.Mqtt.Topics.Matching.{Covers, mqtt_topic_match_iff}
use getdata.Mqtt.Hooks.{
  Packet, bind, no_profile, on_connect_authenticate, Event, connect, establish, publish, on_events,
}
use getdata.Mqtt.Hooks.Access.{Admission, on_connect-Admission, MayUse, on_events-MayUse}
use getdata.Mqtt.Hooks.Sound.{on_events-IsSound}
use getdata.Examples.StoreRuns.{lamp}
use getdata.Examples.ServiceRuns.{world, serving}

-- A machine that keeps to sums of small numbers.
abbrev pub machine : Platform
machine = record {
  multiply_add = λ x y z. x;
  beyond_int64 = λ x. pos 0;
  unix = λ n. 5;
  unix_milli = λ n. 6;
  parse_float = λ s. none;
  parse_time = λ s. none;
}

abbrev pub reading : Dict Value
reading = ("token", str "t") ∷ ("temp", float (finite (pos 3))) ∷ ("ts", str "1700000000") ∷ []

abbrev mapped_profile : ProductAccessProfile
mapped_profile = record no_profile {
  point_mappings =
      record {
        source = " temp ";
        property = "t";
        scale = finite (pos 0);
        offset = finite (pos 0);
        unit = "";
      }
      ∷ [];
}

lookup-resolve_example :
    lookup "t" (resolve_mapped_values machine reading mapped_profile)
    ≡ last_mapped machine reading "t" mapped_profile.point_mappings
lookup-resolve_example = lookup-resolve machine reading mapped_profile "t"

resolve_routing_runs :
    resolve_routing (record no_profile { topic = "plant/{device_id}/" }) "d"
    ≡ record { up_topic = "plant/d/up"; down_topic = "plant/d/down"; ack_topic = "plant/d/ack" }
unfolding resolve_routing
resolve_routing_runs = refl

mqtt_topic_match_iff_example :
    (mqtt_topic_match "devices/+/down" "devices/d/down" ≡ true)
    ↔ Covers (parts "devices/+/down") (parts "devices/d/down")
mqtt_topic_match_iff_example = mqtt_topic_match_iff "devices/+/down" "devices/d/down"

mqtt_topic_match_runs : mqtt_topic_match "devices/#" "/devices/d/down" ≡ true
unfolding mqtt_topic_match
mqtt_topic_match_runs = refl

on_connect-Admission_example :
    Admission "c_1" "dev_1" "t" [] serving (on_connect_authenticate "c_1" "dev_1" "t" [] serving).0
on_connect-Admission_example = on_connect-Admission "c_1" "dev_1" "t" [] serving

abbrev message : Packet
message = record { topic_name = "devices/dev_1/up"; bytes = 40; object = some reading; ack = none }

abbrev events : List Event
events = connect "c_1" "dev_00ff" "00ff" ∷ establish "c_1" ∷ publish (some "c_1") message ∷ []

abbrev pub made : Service
made = run world (Operation.device "" "lamp" "" [] [] ∷ []) (new_service (pos 2))

pub made-IsSound : IsSound made
made-IsSound = run-IsSound world (Operation.device "" "lamp" "" [] [] ∷ []) (pos 2)

on_events-IsSound_example : IsSound (on_events world machine events ([], made)).1
on_events-IsSound_example = on_events-IsSound world machine events [] made made-IsSound

bound :
    lookup "c_1" (on_events world machine (connect "c_1" "dev_1" "t" ∷ []) ([], serving)).0
    ≡ some (bind lamp no_profile)
unfolding on_events lookup insert authenticate_device get_device clone_device ◌>>=◌ attempt query
    pure modify
bound = refl

on_events-MayUse_example :
    MayUse world
      (on_events world machine (connect "c_1" "dev_1" "t" ∷ []) ([], serving)).0
      "c_1"
      (bind lamp no_profile).routing
on_events-MayUse_example =
    on_events-MayUse world machine (connect "c_1" "dev_1" "t" ∷ []) serving "c_1"
      (bind lamp no_profile) bound

flat_values : build_values machine reading no_profile ≡ ok (("temp", float (finite (pos 3))) ∷ [])
unfolding build_values
flat_values = refl

build_values-filled_example : filled (("temp", float (finite (pos 3))) ∷ []) ≡ true
build_values-filled_example =
    build_values-filled machine reading no_profile (("temp", float (finite (pos 3))) ∷ [])
      flat_values

extract_timestamp-Found_example :
    Found machine reading 7 ("ts" ∷ "timestamp" ∷ "time" ∷ []) (extract_timestamp machine reading 7)
extract_timestamp-Found_example = extract_timestamp-Found machine reading 7

extract_timestamp_runs : extract_timestamp machine reading 7 ≡ 5
unfolding extract_timestamp
extract_timestamp_runs = refl

serves-protocol_catalog_example : All (λ entry. serves machine 1 5 entry ≡ true) protocol_catalog
serves-protocol_catalog_example = serves-protocol_catalog machine 1 5

filter_reserved_runs : filter_reserved_payload_keys reading ≡ ("temp", float (finite (pos 3))) ∷ []
unfolding filter_reserved_payload_keys
filter_reserved_runs = refl
