-- ===== src/Core/Sessions.antt =====
-- service.go: the sessions of the connected devices, and the plain counters.
pub mod Online
use getdata.Base.{
  ℕ, String, Bool, true, false, ◌&&◌, not, Option, none, some, List, [], ◌∷◌, ◌==◌, ltb, leb,
  nat_eq, if◌then◌else◌, Result, ok, err, invalid_credential,
}
use getdata.Base.Dict.{insert}
use getdata.Base.Text.{trim_space, to_lower}
use getdata.Base.Words.{inc64, dec64, add64}
use getdata.Model.{Time, Device}
use getdata.Store.Catalog.{get_device}
use getdata.Core.State.{
  Session, Env, DeviceState, Service, Action, state_of, ◌>>=◌, ◌>>◌, pure, fail, query, modify,
  read_clock,
}

abbrev pub lower_trim : String → String
lower_trim s = to_lower (trim_space s)

-- sessionTransportName
unfoldable pub session_transport_name : Session → String
session_transport_name session = elim session.transport [
  | none ↦ "tcp"
  | some transport ↦ let value = lower_trim transport in if value == "" then "tcp" else value
]

unfoldable pub authenticate_device : String → String → Action Device
authenticate_device device_id token = do
  device ← query (get_device (trim_space device_id))
  if device.token == trim_space token then pure device else fail invalid_credential

-- The session that a new one replaces is closed, unless it has the same ID.
abbrev replaced : Session → DeviceState → List String → List String
replaced session state closed = elim state.session [
  | none ↦ closed
  | some previous ↦
      if state.session_id == session.session_id then closed else previous.session_id ∷ closed
]

abbrev pub on_line : Option Session → Bool
on_line none = false
on_line (some _) = true

-- What RegisterSession writes for the device.
abbrev pub opened : Time → Session → DeviceState
opened now session = record {
  session = some session;
  session_id = session.session_id;
  transport = session_transport_name session;
  connected_at = now;
  last_seen = now;
}

-- What UnregisterSession writes for the device.
abbrev pub ended : Time → DeviceState → DeviceState
ended now state = record state { session = none; session_id = ""; transport = ""; last_seen = now }

unfoldable pub register_at : Time → String → Session → Service → Service
unfolding session_transport_name
register_at now device_id session s =
    let state = state_of device_id s.states in
    record s {
      states = insert device_id (opened now session) s.states;
      counters =
          if on_line state.session
          then s.counters
          else record s.counters { online_devices = inc64 s.counters.online_devices };
      closed = replaced session state s.closed;
    }

unfoldable pub unregister_at : Time → String → String → Service → Service
unregister_at now device_id session_id s =
    let state = state_of device_id s.states in
    if on_line state.session && state.session_id == session_id
    then record s {
      states = insert device_id (ended now state) s.states;
      counters = record s.counters { online_devices = dec64 s.counters.online_devices };
    }
    else s

unfoldable pub touched : Time → DeviceState → DeviceState
touched at state = record state {
  last_seen = if ltb state.last_seen at then at else state.last_seen;
  connected_at =
      if nat_eq state.connected_at 0 && on_line state.session then at else state.connected_at;
}

unfoldable pub touch_device : String → Time → Service → Service
unfolding touched
touch_device device_id at s = record s {
  states = insert device_id (touched at (state_of device_id s.states)) s.states;
}

module _ (env : Env) where
  unfoldable pub register_session : String → Session → Action (Unit {0})
  unfolding register_at
  register_session device_id session = do
    now ← read_clock env
    modify (register_at now device_id session)

  unfoldable pub unregister_session : String → String → Action (Unit {0})
  unfolding unregister_at
  unregister_session device_id session_id = do
    now ← read_clock env
    modify (unregister_at now device_id session_id)

unfoldable pub record_connection_accepted : Service → Service
record_connection_accepted s = record s {
  counters = record s.counters { total_connections = inc64 s.counters.total_connections };
}

unfoldable pub record_connection_rejected : Service → Service
record_connection_rejected s = record s {
  counters = record s.counters { rejected_connections = inc64 s.counters.rejected_connections };
}

-- recordCommandPublished
unfoldable pub record_command_published : String → Service → Service
record_command_published transport s = record s {
  counters =
      if lower_trim transport == "mqtt"
      then record s.counters { mqtt_commands_published = inc64 s.counters.mqtt_commands_published }
      else record s.counters { tcp_commands_published = inc64 s.counters.tcp_commands_published };
}

-- RecordCommandAckTransport
unfoldable pub record_command_ack_transport : String → Service → Service
record_command_ack_transport transport s = record s {
  counters =
      if lower_trim transport == "mqtt"
      then record s.counters { mqtt_command_acks = inc64 s.counters.mqtt_command_acks }
      else record s.counters { tcp_command_acks = inc64 s.counters.tcp_command_acks };
}

-- recordIngressVolume, of two lengths.
unfoldable pub record_ingress_volume : ℕ → ℕ → Service → Service
record_ingress_volume payload_bytes value_count s = record s {
  counters = record s.counters {
    bytes_ingested =
        if ltb 0 payload_bytes
        then add64 s.counters.bytes_ingested payload_bytes
        else s.counters.bytes_ingested;
    telemetry_values =
        if ltb 0 value_count
        then add64 s.counters.telemetry_values value_count
        else s.counters.telemetry_values;
  };
}

-- RecordTCPTelemetryAccepted
unfoldable pub record_tcp_telemetry_accepted : ℕ → ℕ → Service → Service
unfolding record_ingress_volume
record_tcp_telemetry_accepted payload_bytes value_count s =
    record_ingress_volume payload_bytes value_count (record s {
      counters = record s.counters {
        tcp_telemetry_accepted = inc64 s.counters.tcp_telemetry_accepted;
      };
    })

-- RecordHTTPRequest
unfoldable pub record_http_request : ℕ → Service → Service
record_http_request status s = record s {
  counters = record s.counters {
    http_requests = inc64 s.counters.http_requests;
    http_errors = if leb 400 status then inc64 s.counters.http_errors else s.counters.http_errors;
  };
}

-- RecordHTTPIngestResult
unfoldable pub record_http_ingest_result : Bool → ℕ → ℕ → Service → Service
unfolding record_ingress_volume
record_http_ingest_result accepted payload_bytes value_count s =
    record_ingress_volume payload_bytes value_count (record s {
      counters =
          if accepted
          then record s.counters { http_ingest_accepted = inc64 s.counters.http_ingest_accepted }
          else record s.counters { http_ingest_rejected = inc64 s.counters.http_ingest_rejected };
    })

-- RecordMQTTConnectionAccepted
unfoldable pub record_mqtt_connection_accepted : Service → Service
record_mqtt_connection_accepted s = record s {
  counters = record s.counters {
    mqtt_connections_accepted = inc64 s.counters.mqtt_connections_accepted;
  };
}

-- RecordMQTTConnectionRejected
unfoldable pub record_mqtt_connection_rejected : Service → Service
record_mqtt_connection_rejected s = record s {
  counters = record s.counters {
    mqtt_connections_rejected = inc64 s.counters.mqtt_connections_rejected;
  };
}

-- RecordMQTTMessageReceived
unfoldable pub record_mqtt_message_received : ℕ → ℕ → Bool → Service → Service
unfolding record_ingress_volume
record_mqtt_message_received payload_bytes value_count telemetry s =
    record_ingress_volume payload_bytes value_count (record s {
      counters = record s.counters {
        mqtt_messages_received = inc64 s.counters.mqtt_messages_received;
        mqtt_telemetry_accepted =
            if telemetry
            then inc64 s.counters.mqtt_telemetry_accepted
            else s.counters.mqtt_telemetry_accepted;
      };
    })
