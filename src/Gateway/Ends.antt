-- ===== src/Gateway/Ends.antt =====
-- What a connection leaves behind: soundness, and whether its session is still registered.
use getdata.Base.{
  ℕ, String, ◌≡◌, ◌≢◌, refl, Bool, true, false, ◌&&◌, Option, none, some, List, [], ◌∷◌, ◌==◌,
  eq_iff, if◌then◌else◌, Result, ok, err, arith, All,
}
use getdata.Base.Dict.{lookup-insert}
use getdata.Model.{Time, Device, DeviceMessage, ServerMessage}
use getdata.Core.State.{
  Session, Env, Service, Action, state_of, ◌>>=◌, pure, modify, read_clock, deliver,
}
use getdata.Core.State.Preserves.{
  Preserves, Preserves-bind, Preserves-pure, Preserves-modify, preserve_rules,
}
use getdata.Core.State.NeverFails.{
  NeverFails, returns_rules, Yields, Yields-bind, Yields-pure, NeverFails-clock,
}
use getdata.Core.Sessions.{on_line, authenticate_device, unregister_at, unregister_session}
use getdata.Core.Soundness.{IsSound}
use getdata.Core.Soundness.Writes.{IsSound-IsStable}
use getdata.Core.Soundness.Stable.{deliver-Preserves, handle_command_ack-Preserves}
use getdata.Core.Soundness.Operations.{
  clock-IsSound, touch-IsSound, register_session-IsSound, unregister_session-IsSound,
  handle_telemetry-IsSound,
}
use getdata.Core.Soundness.Counters.{rejected-IsSound, tcp_telemetry-IsSound, ack_transport-IsSound}
use getdata.Gateway.{
  Line, Connection, Next, carry_on, leave, welcome, on_auth, after_report, on_telemetry, after_ack,
  on_ack, on_other, on_message, on_decoded, handle_line, note_closed, finish, serve,
  handle_connection,
}

module _ (env : Env) (session : Session) where
  deliver-IsSound : (m : ServerMessage) → Preserves IsSound (deliver env session m)
  deliver-IsSound = deliver-Preserves IsSound-IsStable env session

  welcome-IsSound : (now : Time) (r : Result Device) → Preserves IsSound (welcome env session now r)
  welcome-IsSound now (err e) = search (preserve_rules, rejected-IsSound, deliver-IsSound) depth 16
  welcome-IsSound now (ok device) =
      search (preserve_rules, register_session-IsSound env, touch-IsSound env, deliver-IsSound)
        depth 16

  on_auth-IsSound :
      (c : Connection) (now : Time) (m : DeviceMessage)
      → Preserves IsSound (on_auth env session c now m)
  unfolding on_auth authenticate_device
  on_auth-IsSound c now m = search (preserve_rules, deliver-IsSound, welcome-IsSound) depth 16

  after_report-IsSound :
      (bytes : ℕ) (m : DeviceMessage) (r : Result (Unit {0}))
      → Preserves IsSound (after_report env session bytes m r)
  after_report-IsSound bytes m (err e) = search (preserve_rules, deliver-IsSound)
  after_report-IsSound bytes m (ok _) = tcp_telemetry-IsSound _ _

  after_ack-IsSound : (r : Result (Unit {0})) → Preserves IsSound (after_ack env session r)
  after_ack-IsSound (err e) = search (preserve_rules, deliver-IsSound)
  after_ack-IsSound (ok _) = ack_transport-IsSound "tcp"

  on_message-IsSound :
      (c : Connection) (now : Time) (bytes : ℕ) (m : DeviceMessage)
      → Preserves IsSound (on_message env session c now bytes m)
  unfolding on_message on_other on_telemetry on_ack
  on_message-IsSound c now bytes m =
      search
        (
          preserve_rules,
          rejected-IsSound,
          deliver-IsSound,
          touch-IsSound env,
          on_auth-IsSound,
          handle_telemetry-IsSound env,
          handle_command_ack-Preserves IsSound-IsStable env,
          after_report-IsSound,
          after_ack-IsSound,
        )
        depth 24

  on_decoded-IsSound :
      (c : Connection) (now : Time) (bytes : ℕ) (m : Option DeviceMessage)
      → Preserves IsSound (on_decoded env session c now bytes m)
  on_decoded-IsSound c now bytes none = search (preserve_rules, deliver-IsSound)
  on_decoded-IsSound c now bytes (some m) = on_message-IsSound c now bytes m

  closed-IsSound : Preserves IsSound (modify (note_closed env session))
  closed-IsSound = Preserves-modify _ (λ s p. IsSound-IsStable.same s _ refl p)

  finish-IsSound : (c : Connection) → Preserves IsSound (finish env session c)
  unfolding finish
  finish-IsSound c =
      search (preserve_rules, rejected-IsSound, closed-IsSound, unregister_session-IsSound env)
        depth 12

  serve-IsSound :
      (c : Connection) (lines : List Line) → Preserves IsSound (serve env session c lines)
  unfolding serve handle_line
  serve-IsSound c [] = finish-IsSound c
  serve-IsSound c (line ∷ rest) =
      Preserves-bind _ _
        (Preserves-bind _ _ (clock-IsSound env)
          λ now. on_decoded-IsSound c now line.bytes line.decoded)
        (elim [ leave ↦ Preserves-pure tt | carry_on c' ↦ serve-IsSound c' rest ])

  -- The device has this connection's session.
  abbrev pub holds_session : String → Service → Bool
  holds_session d s =
      let state = state_of d s.states in
      on_line state.session && state.session_id == session.session_id

  unregister_ends :
      (now : Time) (d : String) (s : Service)
      → holds_session d (unregister_at now d session.session_id s) ≡ false
  unfolding unregister_at state_of
  unregister_ends now d s = ground (
    arith,
    lookup-insert d d
        (record (state_of d s.states) {
          session = none;
          session_id = "";
          transport = "";
          last_seen = now;
        })
        s.states,
    eq_iff d d,
  )

  pub finish_ends :
      (d : String) (s : Service)
      → d ≢ ""
      → holds_session d (finish env session (record { authenticated = true; device_id = d }) s).1
        ≡ false
  unfolding finish unregister_session ◌>>=◌ modify read_clock pure
  finish_ends d s h =
      let named : (d == "") ≡ false = ground (arith, eq_iff d "") in
      rw named (unregister_ends (env.now s.readings) d _)

  after_report-NeverFails :
      (bytes : ℕ) (m : DeviceMessage) (r : Result (Unit {0}))
      → NeverFails (after_report env session bytes m r)
  after_report-NeverFails bytes m (err e) = search returns_rules
  after_report-NeverFails bytes m (ok _) = search returns_rules

  after_ack-NeverFails : (r : Result (Unit {0})) → NeverFails (after_ack env session r)
  after_ack-NeverFails (err e) = search returns_rules
  after_ack-NeverFails (ok _) = search returns_rules

  on_telemetry-NeverFails :
      (c : Connection) (now : Time) (bytes : ℕ) (m : DeviceMessage)
      → NeverFails (on_telemetry env session c now bytes m)
  unfolding on_telemetry
  on_telemetry-NeverFails c now bytes m = search (returns_rules, after_report-NeverFails)

  on_ack-NeverFails : (c : Connection) (m : DeviceMessage) → NeverFails (on_ack env session c m)
  unfolding on_ack
  on_ack-NeverFails c m = search (returns_rules, after_ack-NeverFails)

  -- A line that is no message, or a message that is not an authentication.
  abbrev pub NotAuth : Line → Type 0
  NotAuth line = (m : DeviceMessage) → line.decoded ≡ some m → (m.type == "auth") ≡ false

  Yields-if :
      (next : Next) (b : Bool) (m n : Action Next)
      → Yields next m
      → Yields next n
      → Yields next (if b then m else n)
  Yields-if next true m n left right = left
  Yields-if next false m n left right = right

  on_other-Yields :
      (c : Connection) (now : Time) (bytes : ℕ) (m : DeviceMessage)
      → Yields (carry_on c) (on_other env session c now bytes m)
  unfolding on_other
  on_other-Yields c now bytes m =
      search
        (
          Yields-if, Yields-bind, Yields-pure, returns_rules, on_telemetry-NeverFails,
          on_ack-NeverFails,
        )
        depth 16

  -- The connection of a device that has authenticated.
  abbrev pub as_device : String → Connection
  as_device d = record { authenticated = true; device_id = d }

  on_decoded-Yields :
      (d : String) (now : Time) (bytes : ℕ) (decoded : Option DeviceMessage)
      → ((m : DeviceMessage) → decoded ≡ some m → (m.type == "auth") ≡ false)
      → Yields (carry_on (as_device d)) (on_decoded env session (as_device d) now bytes decoded)
  unfolding on_message
  on_decoded-Yields d now bytes none h = search (Yields-bind, Yields-pure, returns_rules)
  on_decoded-Yields d now bytes (some m) h =
      rw (h m refl) (on_other-Yields (as_device d) now bytes m)

  pub handle_line-Yields :
      (d : String) (line : Line)
      → NotAuth line
      → Yields (carry_on (as_device d)) (handle_line env session (as_device d) line)
  unfolding handle_line
  handle_line-Yields d line h =
      Yields-bind _ _ _ (NeverFails-clock env)
        λ now. on_decoded-Yields d now line.bytes line.decoded h

  -- After a device has authenticated, and if no later line of its connection asks for authentication
  -- again, then at the end of the connection the device no longer has the connection's session,
  -- whatever the lines were and whichever of them were rejected.
  pub serve_ends :
      (d : String) (lines : List Line) (s : Service)
      → d ≢ ""
      → All NotAuth lines
      → holds_session d (serve env session (as_device d) lines s).1 ≡ false
  unfolding serve ◌>>=◌
  serve_ends d [] s h n = finish_ends d s h
  serve_ends d (line ∷ rest) s h n =
      rw ((handle_line-Yields d line n.0).yields s)
        (serve_ends d rest (handle_line env session (as_device d) line s).1 h n.1)

-- A connection keeps the service sound, whatever lines arrive on it.
pub connection-IsSound :
    (env : Env) (conn_id : String) (lines : List Line) (s : Service)
    → IsSound s
    → IsSound (handle_connection env conn_id lines s).1
unfolding handle_connection
connection-IsSound env conn_id lines s p = (serve-IsSound env _ _ lines).holds s p
