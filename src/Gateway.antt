-- ===== src/Gateway.antt =====
-- internal/gateway/server.go: a device's TCP connection, from its first line to its end. A line is
-- what encoding/json makes of it, none if it is not valid JSON, with its length in bytes. Deadlines,
-- the byte stream and the deferred closing of the connection are left out: the list of lines ends
-- where reading ends. The writer of a session is in Gateway/Queue.
pub mod Queue
pub mod Ends
pub mod Registered
use getdata.Base.{
  ℕ, ◌+◌, ◌*◌, String, Bool, true, false, not, ◌&&◌, Option, none, some, List, [], ◌∷◌, ◌==◌,
  if◌then◌else◌, length, Result, ok, err,
}
use getdata.Base.Words.{ℤ, pos, is_pos, to_ℕ}
use getdata.Model.{Time, Device, DeviceMessage, ServerMessage}
use getdata.Core.State.{
  Session, Env, Service, Action, ◌>>=◌, ◌>>◌, pure, modify, attempt, read_clock, deliver,
}
use getdata.Core.Sessions.{
  authenticate_device, register_session, unregister_session, touch_device,
  record_connection_rejected, record_tcp_telemetry_accepted, record_command_ack_transport,
}
use getdata.Core.Commands.{unix_milli, handle_command_ack, epoch_millis}
use getdata.Core.Telemetry.{handle_telemetry}

pub record Line : Type 0 where
  pub decoded : Option DeviceMessage
  pub bytes : ℕ

-- The local variables of handleConnection.
pub record Connection : Type 0 where
  pub authenticated : Bool
  pub device_id : String

-- Whether the loop goes on, or the function returns from its middle.
pub data Next : Type 0 where
  carry_on : Connection → Next
  leave : Next

-- A server message with a type and a time.
abbrev server_message : String → ℤ → String → String → ServerMessage
server_message type server_time device_id error = record {
  type = type;
  server_time = server_time;
  device_id = device_id;
  command_id = "";
  name = "";
  params = [];
  status = "";
  message = "";
  error = error;
}

abbrev error_message : String → ServerMessage
error_message text = server_message "error" (pos 0) "" text

-- time.UnixMilli of a positive number
abbrev from_millis : ℕ → Time
from_millis ms = (epoch_millis + ms) * 1000000

abbrev message_time : Time → ℤ → Time
message_time now ts = if is_pos ts then from_millis (to_ℕ ts) else now

module _ (env : Env) (session : Session) where
  -- _ = session.Send(message)
  abbrev pub reply : ServerMessage → Action (Unit {0})
  reply message = do _ ← deliver env session message; pure tt

  abbrev pub welcome : Time → Result Device → Action Next
  welcome now (err _) = do
    modify record_connection_rejected
    reply (error_message "authentication failed")
    pure leave
  welcome now (ok device) = do
    register_session env device.id session
    modify (touch_device device.id now)
    reply (server_message "auth_ok" (unix_milli now) device.id "")
    pure (carry_on record { authenticated = true; device_id = device.id })

  unfoldable pub on_auth : Connection → Time → DeviceMessage → Action Next
  unfolding authenticate_device register_session touch_device record_connection_rejected
  on_auth c now m =
      if c.authenticated
      then reply (error_message "already authenticated") >> pure leave
      else attempt (authenticate_device m.device_id m.token) >>= welcome now

  abbrev pub after_report : ℕ → DeviceMessage → Result (Unit {0}) → Action (Unit {0})
  after_report bytes m (err _) = reply (error_message "telemetry rejected")
  after_report bytes m (ok _) = modify (record_tcp_telemetry_accepted bytes (length m.values))

  unfoldable pub on_telemetry : Connection → Time → ℕ → DeviceMessage → Action (Unit {0})
  unfolding handle_telemetry record_tcp_telemetry_accepted
  on_telemetry c now bytes m =
      attempt (handle_telemetry env c.device_id (message_time now m.ts) m.values)
      >>= after_report bytes m

  abbrev pub after_ack : Result (Unit {0}) → Action (Unit {0})
  after_ack (err _) = reply (error_message "ack rejected")
  after_ack (ok _) = modify (record_command_ack_transport "tcp")

  unfoldable pub on_ack : Connection → DeviceMessage → Action (Unit {0})
  unfolding handle_command_ack record_command_ack_transport
  on_ack c m =
      attempt (handle_command_ack env c.device_id m.command_id m.status m.message) >>= after_ack

  abbrev pub on_ping : Connection → Time → Action (Unit {0})
  on_ping c now = do
    modify (touch_device c.device_id now)
    reply (server_message "pong" (unix_milli now) "" "")

  -- The switch over the type of a message, but for `auth`.
  unfoldable pub on_other : Connection → Time → ℕ → DeviceMessage → Action Next
  unfolding on_telemetry on_ack
  on_other c now bytes m =
      if m.type == "ping"
      then on_ping c now >> pure (carry_on c)
      else if m.type == "telemetry"
      then on_telemetry c now bytes m >> pure (carry_on c)
      else if m.type == "ack"
      then on_ack c m >> pure (carry_on c)
      else reply (error_message "unknown message type") >> pure (carry_on c)

  unfoldable pub on_message : Connection → Time → ℕ → DeviceMessage → Action Next
  unfolding on_auth on_other record_connection_rejected
  on_message c now bytes m =
      if not c.authenticated && not (m.type == "auth")
      then modify record_connection_rejected
        >> (reply (error_message "auth required") >> pure leave)
      else if m.type == "auth"
      then on_auth c now m
      else on_other c now bytes m

  abbrev pub on_decoded : Connection → Time → ℕ → Option DeviceMessage → Action Next
  on_decoded c now bytes none = reply (error_message "invalid json") >> pure (carry_on c)
  on_decoded c now bytes (some m) = on_message c now bytes m

  unfoldable pub handle_line : Connection → Line → Action Next
  unfolding on_message
  handle_line c line = read_clock env >>= λ now. on_decoded c now line.bytes line.decoded

  abbrev pub note_closed : Service → Service
  note_closed s = record s { closed = session.session_id ∷ s.closed }

  -- What follows the loop.
  unfoldable pub finish : Connection → Action (Unit {0})
  unfolding unregister_session record_connection_rejected
  finish c =
      (if c.authenticated then pure tt else modify record_connection_rejected)
      >> (if c.device_id == ""
          then pure tt
          else unregister_session env c.device_id session.session_id)
      >> modify note_closed

  -- The loop over the lines.
  unfoldable pub serve : Connection → List Line → Action (Unit {0})
  unfolding handle_line finish
  serve c [] = finish c
  serve c (line ∷ rest) =
      let next = λ (c' : Connection). serve c' rest in
      handle_line c line >>= elim [ leave ↦ pure tt | carry_on c' ↦ next c' ]

abbrev fresh : Connection
fresh = record { authenticated = false; device_id = "" }

-- handleConnection
unfoldable pub handle_connection : Env → String → List Line → Action (Unit {0})
unfolding serve
handle_connection env conn_id lines =
    serve env (record { session_id = conn_id; transport = some "tcp" }) fresh lines
