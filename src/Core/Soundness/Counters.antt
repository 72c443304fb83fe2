-- ===== src/Core/Soundness/Counters.antt =====
-- The counters of the servers (the Record methods of core/service.go): none of them is vital.
use getdata.Base.{ℕ, String, refl, Bool, arith}
use getdata.Core.State.{modify}
use getdata.Core.State.Preserves.{Preserves, Preserves-modify}
use getdata.Core.Sessions.{
  record_connection_accepted, record_connection_rejected, record_http_request,
  record_http_ingest_result, record_tcp_telemetry_accepted, record_command_ack_transport,
  record_mqtt_connection_accepted, record_mqtt_connection_rejected, record_mqtt_message_received,
}
use getdata.Core.Soundness.{IsSound}
use getdata.Core.Soundness.Writes.{IsSound-IsStable}

pub accepted-IsSound : Preserves IsSound (modify record_connection_accepted)
unfolding record_connection_accepted
accepted-IsSound = Preserves-modify _ (λ s p. IsSound-IsStable.same s _ refl p)

pub rejected-IsSound : Preserves IsSound (modify record_connection_rejected)
unfolding record_connection_rejected
rejected-IsSound = Preserves-modify _ (λ s p. IsSound-IsStable.same s _ refl p)

pub request-IsSound : (status : ℕ) → Preserves IsSound (modify (record_http_request status))
unfolding record_http_request
request-IsSound status = Preserves-modify _ (λ s p. IsSound-IsStable.same s _ (ground arith) p)

pub ingest_result-IsSound :
    (accepted : Bool) (bytes values : ℕ)
    → Preserves IsSound (modify (record_http_ingest_result accepted bytes values))
unfolding record_http_ingest_result
ingest_result-IsSound accepted bytes values =
    Preserves-modify _ (λ s p. IsSound-IsStable.same s _ (ground arith) p)

pub tcp_telemetry-IsSound :
    (bytes values : ℕ) → Preserves IsSound (modify (record_tcp_telemetry_accepted bytes values))
unfolding record_tcp_telemetry_accepted
tcp_telemetry-IsSound bytes values =
    Preserves-modify _ (λ s p. IsSound-IsStable.same s _ (ground arith) p)

pub ack_transport-IsSound :
    (transport : String) → Preserves IsSound (modify (record_command_ack_transport transport))
unfolding record_command_ack_transport
ack_transport-IsSound transport =
    Preserves-modify _ (λ s p. IsSound-IsStable.same s _ (ground arith) p)

pub mqtt_accepted-IsSound : Preserves IsSound (modify record_mqtt_connection_accepted)
unfolding record_mqtt_connection_accepted
mqtt_accepted-IsSound = Preserves-modify _ (λ s p. IsSound-IsStable.same s _ refl p)

pub mqtt_rejected-IsSound : Preserves IsSound (modify record_mqtt_connection_rejected)
unfolding record_mqtt_connection_rejected
mqtt_rejected-IsSound = Preserves-modify _ (λ s p. IsSound-IsStable.same s _ refl p)

pub mqtt_message-IsSound :
    (bytes values : ℕ) (telemetry : Bool)
    → Preserves IsSound (modify (record_mqtt_message_received bytes values telemetry))
unfolding record_mqtt_message_received
mqtt_message-IsSound bytes values telemetry =
    Preserves-modify _ (λ s p. IsSound-IsStable.same s _ (ground arith) p)

pub ruleset counter_rules = (
  accepted-IsSound, rejected-IsSound, request-IsSound, ingest_result-IsSound, tcp_telemetry-IsSound,
  ack_transport-IsSound, mqtt_accepted-IsSound, mqtt_rejected-IsSound, mqtt_message-IsSound,
)
