-- ===== src/Mqtt/Hooks/Sound.antt =====
-- The hooks keep the service sound, and every client bound to a device's own topics.
use getdata.Base.{
  String, true, Option, none, some, List, [], ◌∷◌, Result, ok, err, product_not_found,
}
use getdata.Base.Dict.{Dict, lookup}
use getdata.Model.{Value, Device, Product, ProductAccessProfile}
use getdata.Core.State.{Env, Service, read_clock}
use getdata.Core.State.Preserves.{Preserves, preserve_rules}
use getdata.Core.Sessions.{authenticate_device}
use getdata.Core.Soundness.{IsSound}
use getdata.Core.Soundness.Writes.{IsSound-IsStable}
use getdata.Core.Soundness.Stable.{handle_command_ack-Preserves}
use getdata.Core.Soundness.Operations.{
  clock-IsSound, touch-IsSound, register_session-IsSound, unregister_session-IsSound,
  handle_telemetry-IsSound,
}
use getdata.Core.Soundness.Counters.{mqtt_message-IsSound, counter_rules}
use getdata.Ingest.{Platform}
use getdata.Mqtt.Hooks.{
  ClientBinding, Ack, Packet, Bindings, turn_away, let_in, with_product, with_device,
  on_connect_authenticate, established, on_session_established, gone, on_disconnect, note_telemetry,
  take_values, take_object, handle_packet, note_ack, take_ack, handle_ack, dispatch, bound,
  handle_publish, Event, connect, establish, disconnect, publish, kept, on_event, on_events,
}

turn_away-IsSound : (b : Bindings) → Preserves IsSound (turn_away b)
unfolding turn_away
turn_away-IsSound b = search (preserve_rules, counter_rules) depth 16

let_in-IsSound :
    (client_id : String) (device : Device) (profile : ProductAccessProfile) (b : Bindings)
    → Preserves IsSound (let_in client_id device profile b)
unfolding let_in
let_in-IsSound client_id device profile b = search (preserve_rules, counter_rules) depth 16

with_product-IsSound :
    (client_id : String) (device : Device) (b : Bindings) (r : Result Product)
    → Preserves IsSound (with_product client_id device b r)
with_product-IsSound client_id device b (ok product) = let_in-IsSound _ _ _ _
with_product-IsSound client_id device b (err product_not_found) = let_in-IsSound _ _ _ _
with_product-IsSound client_id device b (err _) = turn_away-IsSound b

with_device-IsSound :
    (client_id : String) (b : Bindings) (r : Result Device)
    → Preserves IsSound (with_device client_id b r)
with_device-IsSound client_id b (err _) = turn_away-IsSound b
with_device-IsSound client_id b (ok device) =
    search (preserve_rules, let_in-IsSound, with_product-IsSound) depth 16

on_connect-IsSound :
    (client_id username password : String) (b : Bindings)
    → Preserves IsSound (on_connect_authenticate client_id username password b)
unfolding on_connect_authenticate authenticate_device
on_connect-IsSound client_id username password b =
    search (preserve_rules, turn_away-IsSound, with_device-IsSound) depth 16

kept-IsSound :
    {A : Type 0} (f : A → Bindings) (b : Bindings) (x : Result A × Service)
    → IsSound x.1
    → IsSound (kept f b x).1
kept-IsSound f b (ok a, s) p = p
kept-IsSound f b (err _, s) p = p

module _ (env : Env) where
  now-IsSound : Preserves IsSound (read_clock env)
  now-IsSound = clock-IsSound env

  established-IsSound :
      (client_id : String) (binding : Option ClientBinding)
      → Preserves IsSound (established env client_id binding)
  established-IsSound client_id none = search preserve_rules
  established-IsSound client_id (some binding) =
      search (preserve_rules, register_session-IsSound env, now-IsSound, touch-IsSound env) depth 16

  gone-IsSound :
      (client_id : String) (binding : Option ClientBinding)
      → Preserves IsSound (gone env client_id binding)
  gone-IsSound client_id none = search preserve_rules
  gone-IsSound client_id (some binding) = unregister_session-IsSound env _ _

  on_disconnect-IsSound :
      (client_id : String) (b : Bindings) → Preserves IsSound (on_disconnect env client_id b)
  unfolding on_disconnect
  on_disconnect-IsSound client_id b = search (preserve_rules, gone-IsSound)

  note_telemetry-IsSound :
      (packet : Packet) (values : Dict Value) (r : Result (Unit {0}))
      → Preserves IsSound (note_telemetry env packet values r)
  note_telemetry-IsSound packet values (err _) = search preserve_rules
  note_telemetry-IsSound packet values (ok _) = mqtt_message-IsSound _ _ true

  take_values-IsSound :
      (platform : Platform) (binding : ClientBinding) (packet : Packet) (payload : Dict Value)
      (r : Result (Dict Value))
      → Preserves IsSound (take_values env platform binding packet payload r)
  take_values-IsSound platform binding packet payload (err _) = search preserve_rules
  take_values-IsSound platform binding packet payload (ok values) =
      search (preserve_rules, now-IsSound, handle_telemetry-IsSound env, note_telemetry-IsSound)
        depth 16

  take_object-IsSound :
      (platform : Platform) (binding : ClientBinding) (packet : Packet) (o : Option (Dict Value))
      → Preserves IsSound (take_object env platform binding packet o)
  take_object-IsSound platform binding packet none = search preserve_rules
  take_object-IsSound platform binding packet (some payload) =
      take_values-IsSound platform binding packet payload _

  note_ack-IsSound :
      (packet : Packet) (r : Result (Unit {0})) → Preserves IsSound (note_ack env packet r)
  note_ack-IsSound packet (err _) = search preserve_rules
  note_ack-IsSound packet (ok _) = search (preserve_rules, counter_rules)

  take_ack-IsSound :
      (binding : ClientBinding) (packet : Packet) (ack : Option Ack)
      → Preserves IsSound (take_ack env binding packet ack)
  take_ack-IsSound binding packet none = search preserve_rules
  take_ack-IsSound binding packet (some ack) =
      search (preserve_rules, handle_command_ack-Preserves IsSound-IsStable env, note_ack-IsSound)
        depth 16

  dispatch-IsSound :
      (platform : Platform) (packet : Packet) (binding : Option ClientBinding)
      → Preserves IsSound (dispatch env platform packet binding)
  unfolding handle_packet handle_ack
  dispatch-IsSound platform packet none = search preserve_rules
  dispatch-IsSound platform packet (some binding) =
      search (preserve_rules, take_object-IsSound, take_ack-IsSound) depth 16

  on_event-IsSound :
      (platform : Platform) (event : Event) (b : Bindings) (s : Service)
      → IsSound s
      → IsSound (on_event env platform event (b, s)).1
  unfolding on_event on_session_established handle_publish
  on_event-IsSound platform (connect client_id username password) b s p =
      kept-IsSound _ b _ ((on_connect-IsSound client_id username password b).holds s p)
  on_event-IsSound platform (establish client_id) b s p =
      kept-IsSound _ b _ ((established-IsSound client_id (lookup client_id b)).holds s p)
  on_event-IsSound platform (disconnect client_id) b s p =
      kept-IsSound _ b _ ((on_disconnect-IsSound client_id b).holds s p)
  on_event-IsSound platform (publish client packet) b s p =
      kept-IsSound _ b _ ((dispatch-IsSound platform packet (bound env b client)).holds s p)

  -- Whatever the broker tells the hooks, in whatever order, the service stays sound.
  pub on_events-IsSound :
      (platform : Platform) (events : List Event) (b : Bindings) (s : Service)
      → IsSound s
      → IsSound (on_events env platform events (b, s)).1
  unfolding on_events
  on_events-IsSound platform [] b s p = p
  on_events-IsSound platform (event ∷ events) b s p =
      on_events-IsSound platform events _ _ (on_event-IsSound platform event b s p)
