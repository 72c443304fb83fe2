-- ===== src/Mqtt/Hooks.antt =====
-- The hooks of the broker: authHook and session of server.go. The bindings of the connected clients
-- go in and out of each hook that changes them, beside the service. Log lines are left out.
pub mod Access
pub mod Sound
use getdata.Base.{
  ℕ, String, Bool, true, false, ◌||◌, Option, none, some, List, [], ◌∷◌, ◌==◌, if◌then◌else◌,
  length, Result, ok, err, Error, product_not_found,
}
use getdata.Base.Dict.{Dict, lookup, insert, erase}
use getdata.Base.Text.{trim_space}
use getdata.Model.{Time, Value, Device, Product, ProductAccessProfile}
use getdata.Store.Catalog.{get_product}
use getdata.Core.State.{
  Session, Env, Service, Action, ◌>>=◌, ◌>>◌, pure, fail, query, modify, attempt, read_clock,
}
use getdata.Core.Sessions.{
  authenticate_device, register_session, unregister_session, touch_device,
  record_connection_accepted, record_connection_rejected, record_mqtt_connection_accepted,
  record_mqtt_connection_rejected, record_mqtt_message_received, record_command_ack_transport,
}
use getdata.Core.Commands.{handle_command_ack}
use getdata.Core.Telemetry.{handle_telemetry}
use getdata.Ingest.{Platform, build_values, extract_timestamp, filled}
use getdata.Mqtt.Topics.{Routing, resolve_routing, mqtt_topic_match}

pub record ClientBinding : Type 0 where
  pub device_id : String
  pub access_profile : ProductAccessProfile
  pub routing : Routing

-- The acknowledgement in a payload.
pub record Ack : Type 0 where
  pub command_id : String
  pub status : String
  pub message : String

-- A published packet: the length of its payload, and what it decodes to as an object and as an
-- acknowledgement.
pub record Packet : Type 0 where
  pub topic_name : String
  pub bytes : ℕ
  pub object : Option (Dict Value)
  pub ack : Option Ack

-- `h.bindings`, by client ID.
abbrev pub Bindings : Type 0
Bindings = Dict ClientBinding

abbrev pub no_profile : ProductAccessProfile
no_profile = record {
  transport = "";
  protocol = "";
  ingest_mode = "";
  payload_format = "";
  auth_mode = "";
  sensor_template = "";
  topic = "";
  notes = "";
  metadata = [];
  point_mappings = [];
}

-- The session of a client. Its `Send` publishes to the down topic, and its `Close` does nothing.
abbrev pub client_session : String → Session
client_session client_id = record { session_id = client_id; transport = some "mqtt" }

abbrev pub bind : Device → ProductAccessProfile → ClientBinding
bind device profile = record {
  device_id = device.id;
  access_profile = profile;
  routing = resolve_routing profile device.id;
}

-- A connection that is turned away.
unfoldable pub turn_away : Bindings → Action (Bool × Bindings)
turn_away bindings = do
  modify record_connection_accepted
  modify record_connection_rejected
  modify record_mqtt_connection_rejected
  pure (false, bindings)

unfoldable pub let_in : String → Device → ProductAccessProfile → Bindings → Action (Bool × Bindings)
let_in client_id device profile bindings = do
  modify record_connection_accepted
  modify record_mqtt_connection_accepted
  pure (true, insert client_id (bind device profile) bindings)

-- The product of a device may be gone; any other failure turns the client away.
abbrev pub with_product : String → Device → Bindings → Result Product → Action (Bool × Bindings)
with_product client_id device bindings (ok product) =
    let_in client_id device product.access_profile bindings
with_product client_id device bindings (err product_not_found) =
    let_in client_id device no_profile bindings
with_product client_id device bindings (err _) = turn_away bindings

abbrev pub with_device : String → Bindings → Result Device → Action (Bool × Bindings)
with_device client_id bindings (err _) = turn_away bindings
with_device client_id bindings (ok device) =
    if device.product_id == ""
    then let_in client_id device no_profile bindings
    else (attempt (query (get_product (trim_space device.product_id)))
        >>= with_product client_id device bindings)

-- The device that a client names: its user name, or its own ID.
unfoldable pub claimed_device : String → String → String
unfolding trim_space
claimed_device client_id username =
    let device_id = trim_space username in
    if device_id == "" then trim_space client_id else device_id

-- OnConnectAuthenticate
unfoldable pub on_connect_authenticate :
    String → String → String → Bindings → Action (Bool × Bindings)
unfolding claimed_device turn_away let_in
on_connect_authenticate client_id username password bindings =
    let device_id = claimed_device client_id username in
    let token = trim_space password in
    if device_id == "" || token == ""
    then turn_away bindings
    else (attempt (authenticate_device device_id token) >>= with_device client_id bindings)

-- OnACLCheck
unfoldable pub on_acl_check : Bindings → String → String → Bool → Bool
on_acl_check bindings client_id topic write = elim (lookup client_id bindings) [
  | none ↦ false
  | some binding ↦
      if write
      then topic == binding.routing.up_topic || topic == binding.routing.ack_topic
      else mqtt_topic_match topic binding.routing.down_topic
]

-- What the broker tells the hooks.
pub data Event : Type 0 where
  connect : String → String → String → Event
  establish : String → Event
  disconnect : String → Event
  publish : Option String → Packet → Event

-- The bindings after a hook, which are as they were if it gives none.
abbrev pub kept : {A : Type 0} → (A → Bindings) → Bindings → Result A × Service → Bindings × Service
kept f bindings (ok a, s) = (f a, s)
kept f bindings (err _, s) = (bindings, s)

module _ (env : Env) where
  abbrev pub established : String → Option ClientBinding → Action (Unit {0})
  established client_id none = pure tt
  established client_id (some binding) = do
    register_session env binding.device_id (client_session client_id)
    now ← read_clock env
    modify (touch_device binding.device_id now)

  -- OnSessionEstablished
  unfoldable pub on_session_established : Bindings → String → Action (Unit {0})
  on_session_established bindings client_id = established client_id (lookup client_id bindings)

  abbrev pub gone : String → Option ClientBinding → Action (Unit {0})
  gone client_id none = pure tt
  gone client_id (some binding) = unregister_session env binding.device_id client_id

  -- OnDisconnect
  unfoldable pub on_disconnect : String → Bindings → Action Bindings
  on_disconnect client_id bindings = do
    gone client_id (lookup client_id bindings)
    pure (erase client_id bindings)

  abbrev pub note_telemetry : Packet → Dict Value → Result (Unit {0}) → Action (Unit {0})
  note_telemetry packet values (err _) = pure tt
  note_telemetry packet values (ok _) =
      modify (record_mqtt_message_received packet.bytes (length values) true)

  abbrev pub take_values :
      Platform → ClientBinding → Packet → Dict Value → Result (Dict Value) → Action (Unit {0})
  take_values platform binding packet payload (err _) = pure tt
  take_values platform binding packet payload (ok values) =
      if filled values
      then (do
        now ← read_clock env
        r ←
            attempt (
              handle_telemetry env binding.device_id (extract_timestamp platform payload now)
                values)
        note_telemetry packet values r)
      else pure tt

  abbrev pub take_object :
      Platform → ClientBinding → Packet → Option (Dict Value) → Action (Unit {0})
  take_object platform binding packet none = pure tt
  take_object platform binding packet (some payload) =
      take_values platform binding packet payload
        (build_values platform payload binding.access_profile)

  -- handleTelemetry
  unfoldable pub handle_packet : Platform → ClientBinding → Packet → Action (Unit {0})
  handle_packet platform binding packet = take_object platform binding packet packet.object

  abbrev pub note_ack : Packet → Result (Unit {0}) → Action (Unit {0})
  note_ack packet (err _) = pure tt
  note_ack packet (ok _) = do
    modify (record_mqtt_message_received packet.bytes 0 false)
    modify (record_command_ack_transport "mqtt")

  abbrev pub take_ack : ClientBinding → Packet → Option Ack → Action (Unit {0})
  take_ack binding packet none = pure tt
  take_ack binding packet (some ack) =
      if trim_space ack.command_id == ""
      then pure tt
      else (attempt (handle_command_ack env binding.device_id ack.command_id ack.status ack.message)
          >>= note_ack packet)

  -- handleAck
  unfoldable pub handle_ack : ClientBinding → Packet → Action (Unit {0})
  handle_ack binding packet = take_ack binding packet packet.ack

  abbrev pub dispatch : Platform → Packet → Option ClientBinding → Action (Unit {0})
  dispatch platform packet none = pure tt
  dispatch platform packet (some binding) =
      if packet.topic_name == binding.routing.up_topic
      then handle_packet platform binding packet
      else if packet.topic_name == binding.routing.ack_topic
      then handle_ack binding packet
      else pure tt

  abbrev pub bound : Bindings → Option String → Option ClientBinding
  bound bindings none = none
  bound bindings (some client_id) = lookup client_id bindings

  -- handlePublish; the broker may give no client.
  unfoldable pub handle_publish : Platform → Bindings → Option String → Packet → Action (Unit {0})
  handle_publish platform bindings client packet = dispatch platform packet (bound bindings client)

  -- One call of the broker.
  unfoldable pub on_event : Platform → Event → Bindings × Service → Bindings × Service
  unfolding on_connect_authenticate on_session_established on_disconnect handle_publish
  on_event platform (connect client_id username password) (bindings, s) =
      kept (λ r. r.1) bindings (on_connect_authenticate client_id username password bindings s)
  on_event platform (establish client_id) (bindings, s) =
      kept (λ _. bindings) bindings (on_session_established bindings client_id s)
  on_event platform (disconnect client_id) (bindings, s) =
      kept (λ b. b) bindings (on_disconnect client_id bindings s)
  on_event platform (publish client packet) (bindings, s) =
      kept (λ _. bindings) bindings (handle_publish platform bindings client packet s)

  unfoldable pub on_events : Platform → List Event → Bindings × Service → Bindings × Service
  unfolding on_event
  on_events platform [] state = state
  on_events platform (event ∷ events) state =
      on_events platform events (on_event platform event state)
