-- ===== src/Core/Runs.antt =====
-- The operations of the service as data, and runs of them from a new service.
use getdata.Base.{ℕ, String, refl, Bool, List, [], ◌∷◌, arith}
use getdata.Base.Dict.{Dict}
use getdata.Base.Words.{ℤ}
use getdata.Model.{Time, Value, ProductAccessProfile, ThingModel, RuleCondition, RuleAction}
use getdata.Store.{new, list_at}
use getdata.Store.Groups.Invariant.{new-IsMirrored}
use getdata.Core.State.{Env, Session, Service, Counters, modify}
use getdata.Core.Sessions.{
  register_session, unregister_session, touch_device, record_connection_accepted,
  record_connection_rejected, record_http_request, record_http_ingest_result,
  record_tcp_telemetry_accepted, record_command_ack_transport, record_mqtt_connection_accepted,
  record_mqtt_connection_rejected, record_mqtt_message_received,
}
use getdata.Core.Shadows.{get_device_shadow, update_desired_shadow, apply_config_profile}
use getdata.Core.Commands.{send_command, handle_command_ack}
use getdata.Core.Telemetry.{handle_telemetry}
use getdata.Core.Alerts.{update_alert}
use getdata.Core.Members.{assign_device_to_group, unassign_device_from_group, update_device_tags}
use getdata.Core.Ota.{create_campaign}
use getdata.Core.Provision.{
  add_tenant, add_product, update_product_thing_model, update_product_access_profile, add_group,
  add_device, add_config_profile, add_firmware_artifact,
}
use getdata.Core.Provision.CreateRule.{add_rule}
use getdata.Core.Soundness.{IsSound}
use getdata.Core.Soundness.Writes.{IsSound-IsStable}
use getdata.Core.Soundness.Stable.{
  update_desired_shadow-Preserves, apply_config_profile-Preserves, send_command-Preserves,
  handle_command_ack-Preserves,
}
use getdata.Core.Soundness.StableRules.{update_alert-Preserves, create_campaign-Preserves}
use getdata.Core.Soundness.Operations.{
  shadow-IsSound, touch-IsSound, register_session-IsSound, unregister_session-IsSound,
  handle_telemetry-IsSound, assign_device_to_group-IsSound, unassign_device_from_group-IsSound,
  update_device_tags-IsSound,
}
use getdata.Core.Soundness.Counters.{
  accepted-IsSound, rejected-IsSound, request-IsSound, ingest_result-IsSound, tcp_telemetry-IsSound,
  ack_transport-IsSound, mqtt_accepted-IsSound, mqtt_rejected-IsSound, mqtt_message-IsSound,
}
use getdata.Core.Soundness.Creation.{
  add_tenant-IsSound, add_product-IsSound, update_product_thing_model-IsSound,
  update_product_access_profile-IsSound, add_group-IsSound, add_device-IsSound,
  add_config_profile-IsSound, add_firmware_artifact-IsSound, add_rule-IsSound,
}

-- One call of the service, with its arguments.
pub data Operation : Type 0 where
  register : String → Session → Operation
  unregister : String → String → Operation
  telemetry : String → Time → Dict Value → Operation
  command : String → String → Dict Value → Operation
  ack : String → String → String → String → Operation
  shadow : String → Operation
  touch : String → Time → Operation
  connection_accepted : Operation
  connection_rejected : Operation
  http_request : ℕ → Operation
  http_ingest : Bool → ℕ → ℕ → Operation
  tcp_telemetry : ℕ → ℕ → Operation
  ack_transport : String → Operation
  mqtt_accepted : Operation
  mqtt_rejected : Operation
  mqtt_message : ℕ → ℕ → Bool → Operation
  desire : String → Dict Value → Operation
  apply_config : String → String → Operation
  alert : String → String → String → Operation
  assign : String → String → Operation
  unassign : String → String → Operation
  tag : String → Dict String → Operation
  tenant : String → String → String → Dict String → Operation
  product : String → String → String → Dict String → ProductAccessProfile → ThingModel → Operation
  thing_model : String → ThingModel → Operation
  access_profile : String → ProductAccessProfile → Operation
  group : String → String → String → String → Dict String → Operation
  device : String → String → String → Dict String → Dict String → Operation
  config : String → String → String → String → Dict Value → Operation
  firmware :
      String
      → String
      → String
      → String
      → String
      → String
      → String
      → String
      → ℤ
      → Dict String
      → String
      → Operation
  rule :
      String
      → String
      → String
      → String
      → String
      → String
      → Bool
      → String
      → ℤ
      → RuleCondition
      → List RuleAction
      → Operation
  campaign : String → String → String → String → String → String → Operation

-- The counters of a new service.
abbrev zero_counters : Counters
zero_counters = record {
  registered_devices = 0;
  online_devices = 0;
  total_connections = 0;
  rejected_connections = 0;
  telemetry_received = 0;
  commands_sent = 0;
  command_acks = 0;
  http_requests = 0;
  http_errors = 0;
  http_ingest_accepted = 0;
  http_ingest_rejected = 0;
  tcp_telemetry_accepted = 0;
  tcp_command_acks = 0;
  tcp_commands_published = 0;
  mqtt_messages_received = 0;
  mqtt_telemetry_accepted = 0;
  mqtt_command_acks = 0;
  mqtt_commands_published = 0;
  mqtt_connections_accepted = 0;
  mqtt_connections_rejected = 0;
  bytes_ingested = 0;
  telemetry_values = 0;
}

-- NewService over a new store of this telemetry retention.
unfoldable pub new_service : ℤ → Service
unfolding new
new_service retention = record {
  store = new retention;
  states = [];
  rule_states = [];
  counters = zero_counters;
  readings = 0;
  sent = [];
  closed = [];
}

module _ (env : Env) where
  -- The state after a call, whether it succeeded or not.
  unfoldable pub perform : Operation → Service → Service
  perform (register d session) s = (register_session env d session s).1
  perform (unregister d id) s = (unregister_session env d id s).1
  perform (telemetry d at values) s = (handle_telemetry env d at values s).1
  perform (command d name params) s = (send_command env d name params s).1
  perform (ack d id status result) s = (handle_command_ack env d id status result s).1
  perform (shadow d) s = (get_device_shadow env d s).1
  perform (touch d at) s = touch_device d at s
  perform connection_accepted s = record_connection_accepted s
  perform connection_rejected s = record_connection_rejected s
  perform (http_request status) s = record_http_request status s
  perform (http_ingest accepted bytes values) s = record_http_ingest_result accepted bytes values s
  perform (tcp_telemetry bytes values) s = record_tcp_telemetry_accepted bytes values s
  perform (ack_transport transport) s = record_command_ack_transport transport s
  perform mqtt_accepted s = record_mqtt_connection_accepted s
  perform mqtt_rejected s = record_mqtt_connection_rejected s
  perform (mqtt_message bytes values is_report) s =
      record_mqtt_message_received bytes values is_report s
  perform (desire d values) s = (update_desired_shadow env d values s).1
  perform (apply_config id d) s = (apply_config_profile env id d s).1
  perform (alert id status note) s = (update_alert env id status note s).1
  perform (assign g d) s = (assign_device_to_group g d s).1
  perform (unassign g d) s = (unassign_device_from_group g d s).1
  perform (tag d tags) s = (update_device_tags d tags s).1
  perform (tenant name slug text metadata) s = (add_tenant env name slug text metadata s).1
  perform (product t name text metadata profile model) s =
      (add_product env t name text metadata profile model s).1
  perform (thing_model p model) s = (update_product_thing_model env p model s).1
  perform (access_profile p profile) s = (update_product_access_profile env p profile s).1
  perform (group t name text p tags) s = (add_group env t name text p tags s).1
  perform (device t name p tags metadata) s = (add_device env t name p tags metadata s).1
  perform (config t name text p values) s = (add_config_profile env t name text p values s).1
  perform (firmware t p name version file url sum kind size metadata notes) s =
      (add_firmware_artifact env t p name version file url sum kind size metadata notes s).1
  perform (rule t name text p g d enabled severity cooldown condition actions) s =
      (add_rule env t name text p g d enabled severity cooldown condition actions s).1
  perform (campaign t name f p g d) s = (create_campaign env t name f p g d s).1

  unfoldable pub run : List Operation → Service → Service
  unfolding perform
  run [] s = s
  run (op ∷ ops) s = run ops (perform op s)

  -- Every call keeps the service sound.
  perform-IsSound : (op : Operation) (s : Service) → IsSound s → IsSound (perform op s)
  unfolding perform send_command modify
  perform-IsSound (register d session) s p = (register_session-IsSound env d session).holds s p
  perform-IsSound (unregister d id) s p = (unregister_session-IsSound env d id).holds s p
  perform-IsSound (telemetry d at values) s p = (handle_telemetry-IsSound env d at values).holds s p
  perform-IsSound (command d name params) s p =
      (send_command-Preserves IsSound-IsStable env d "" name params).holds s p
  perform-IsSound (ack d id status result) s p =
      (handle_command_ack-Preserves IsSound-IsStable env d id status result).holds s p
  perform-IsSound (shadow d) s p = (shadow-IsSound env d).holds s p
  perform-IsSound (touch d at) s p = (touch-IsSound env d at).holds s p
  perform-IsSound connection_accepted s p = accepted-IsSound.holds s p
  perform-IsSound connection_rejected s p = rejected-IsSound.holds s p
  perform-IsSound (http_request status) s p = (request-IsSound status).holds s p
  perform-IsSound (http_ingest accepted bytes values) s p =
      (ingest_result-IsSound accepted bytes values).holds s p
  perform-IsSound (tcp_telemetry bytes values) s p = (tcp_telemetry-IsSound bytes values).holds s p
  perform-IsSound (ack_transport transport) s p = (ack_transport-IsSound transport).holds s p
  perform-IsSound mqtt_accepted s p = mqtt_accepted-IsSound.holds s p
  perform-IsSound mqtt_rejected s p = mqtt_rejected-IsSound.holds s p
  perform-IsSound (mqtt_message bytes values is_report) s p =
      (mqtt_message-IsSound bytes values is_report).holds s p
  perform-IsSound (desire d values) s p =
      (update_desired_shadow-Preserves IsSound-IsStable env d values).holds s p
  perform-IsSound (apply_config id d) s p =
      (apply_config_profile-Preserves IsSound-IsStable env id d).holds s p
  perform-IsSound (alert id status note) s p =
      (update_alert-Preserves IsSound-IsStable env id status note).holds s p
  perform-IsSound (assign g d) s p = (assign_device_to_group-IsSound env g d).holds s p
  perform-IsSound (unassign g d) s p = (unassign_device_from_group-IsSound env g d).holds s p
  perform-IsSound (tag d tags) s p = (update_device_tags-IsSound env d tags).holds s p
  perform-IsSound (tenant name slug text metadata) s p =
      (add_tenant-IsSound env name slug text metadata).holds s p
  perform-IsSound (product t name text metadata profile model) s p =
      (add_product-IsSound env t name text metadata profile model).holds s p
  perform-IsSound (thing_model q model) s p =
      (update_product_thing_model-IsSound env q model).holds s p
  perform-IsSound (access_profile q profile) s p =
      (update_product_access_profile-IsSound env q profile).holds s p
  perform-IsSound (group t name text q tags) s p =
      (add_group-IsSound env t name text q tags).holds s p
  perform-IsSound (device t name q tags metadata) s p =
      (add_device-IsSound env t name q tags metadata).holds s p
  perform-IsSound (config t name text q values) s p =
      (add_config_profile-IsSound env t name text q values).holds s p
  perform-IsSound (firmware t q name version file url sum kind size metadata notes) s p =
      (add_firmware_artifact-IsSound env t q name version file url sum kind size metadata
          notes).holds
        s p
  perform-IsSound (rule t name text q g d enabled severity cooldown condition actions) s p =
      (add_rule-IsSound env t name text q g d enabled severity cooldown condition actions).holds s p
  perform-IsSound (campaign t name f q g d) s p =
      (create_campaign-Preserves IsSound-IsStable env t name f q g d).holds s p

  run_keeps : (ops : List Operation) (s : Service) → IsSound s → IsSound (run ops s)
  unfolding run
  run_keeps [] s p = p
  run_keeps (op ∷ ops) s p = run_keeps ops (perform op s) (perform-IsSound op s p)

new_service-IsSound : (retention : ℤ) → IsSound (new_service retention)
unfolding new_service new list_at
new_service-IsSound retention = record {
  counted = record { counted = refl };
  mirrored = new-IsMirrored retention;
  telemetry_bounded = λ d. omega arith;
  alerts_bounded = omega arith;
}

-- After any calls, in any order, whichever of them fail and whatever the clock, the random bytes and
-- the sessions answer: the gauge of online devices is the number of devices with a session (modulo
-- 2 ^ 64), the two membership maps mirror each other, hold no ID twice and name only known groups and
-- devices, no device has more telemetry than the retention, and there are not more alerts than theirs.
pub run-IsSound :
    (env : Env) (ops : List Operation) (retention : ℤ)
    → IsSound (run env ops (new_service retention))
run-IsSound env ops retention =
    run_keeps env ops (new_service retention) (new_service-IsSound retention)
