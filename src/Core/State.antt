-- ===== src/Core/State.antt =====
-- The state of the service, what it takes from outside, and the monad of its operations.
pub mod Preserves
pub mod NeverFails
use Prim.Native.String.{◌++◌ as ◌<>◌}
use getdata.Base.{
  ℕ, ◌+◌, String, Bool, true, false, Option, none, some, List, [], ◌∷◌, if◌then◌else◌, Result, ok,
  err, Error,
}
use getdata.Base.Dict.{Dict, lookup, insert}
use getdata.Base.Words.{inc64, add64, ℤ}
use getdata.Model.{Time, Value, ServerMessage}
use getdata.Store.{Store}
use getdata.Store as S

-- A session as the service sees it: its ID, and the answer of `Transport` if it has that method.
pub record Session : Type 0 where
  pub session_id : String
  pub transport : Option String

-- What the service reads from outside: the clock, random bytes in hexadecimal, the outcome of
-- sending to a session (the text of an error, if any), and `fmt.Sprintf("%v", …)`. Readings are
-- numbered, so two readings need not agree.
pub record Env : Type 0 where
  pub now : ℕ → Time
  pub random_hex : ℕ → ℕ → String
  pub send : ℕ → Session → ServerMessage → Option String
  pub sprint : Value → String

pub record DeviceState : Type 0 where
  pub session : Option Session
  pub session_id : String
  pub transport : String
  pub connected_at : Time
  pub last_seen : Time

pub record RuleRuntimeState : Type 0 where
  pub triggered_count : ℕ
  pub last_triggered_at : Time

-- The atomic counters, as 64-bit patterns.
pub record Counters : Type 0 where
  pub registered_devices : ℕ
  pub online_devices : ℕ
  pub total_connections : ℕ
  pub rejected_connections : ℕ
  pub telemetry_received : ℕ
  pub commands_sent : ℕ
  pub command_acks : ℕ
  pub http_requests : ℕ
  pub http_errors : ℕ
  pub http_ingest_accepted : ℕ
  pub http_ingest_rejected : ℕ
  pub tcp_telemetry_accepted : ℕ
  pub tcp_command_acks : ℕ
  pub tcp_commands_published : ℕ
  pub mqtt_messages_received : ℕ
  pub mqtt_telemetry_accepted : ℕ
  pub mqtt_command_acks : ℕ
  pub mqtt_commands_published : ℕ
  pub mqtt_connections_accepted : ℕ
  pub mqtt_connections_rejected : ℕ
  pub bytes_ingested : ℕ
  pub telemetry_values : ℕ

-- `readings` numbers the reads from outside; `sent` and `closed` record the messages that sessions
-- took and the sessions that were closed, newest first.
pub record Service : Type 0 where
  pub store : Store
  pub states : Dict DeviceState
  pub rule_states : Dict RuleRuntimeState
  pub counters : Counters
  pub readings : ℕ
  pub sent : List (String × ServerMessage)
  pub closed : List String

-- The zero values that a missing key reads as.
abbrev pub zero_device_state : DeviceState
zero_device_state = record {
  session = none;
  session_id = "";
  transport = "";
  connected_at = 0;
  last_seen = 0;
}

abbrev pub zero_rule_state : RuleRuntimeState
zero_rule_state = record { triggered_count = 0; last_triggered_at = 0 }

unfoldable pub state_of : String → Dict DeviceState → DeviceState
unfolding lookup
state_of device_id m = elim (lookup device_id m) [ none ↦ zero_device_state | some d ↦ d ]

unfoldable pub rule_state_of : String → Dict RuleRuntimeState → RuleRuntimeState
unfolding lookup
rule_state_of key m = elim (lookup key m) [ none ↦ zero_rule_state | some r ↦ r ]

-- An operation that may fail. What it wrote before it failed stays written.
abbrev pub Action : Type 0 → Type 0
Action A = Service → Result A × Service

abbrev pub continue : {A B : Type 0} → Result A → (A → Action B) → Action B
continue (ok a) f s = f a s
continue (err e) f s = (err e, s)

infixl 5 ◌>>=◌ ◌>>◌
unfoldable pub ◌>>=◌ : {A B : Type 0} → Action A → (A → Action B) → Action B
◌>>=◌ m f s = let (r, s') = m s in continue r f s'

abbrev pub ◌>>◌ : {A B : Type 0} → Action A → Action B → Action B
m >> k = m >>= λ _. k

unfoldable pub pure : {A : Type 0} → A → Action A
pure a s = (ok a, s)

unfoldable pub fail : {A : Type 0} → Error → Action A
fail e s = (err e, s)

unfoldable pub lift : {A : Type 0} → Result A → Action A
lift r s = (r, s)

-- A read of the store that may fail.
unfoldable pub query : {A : Type 0} → (Store → Result A) → Action A
query f s = (f s.store, s)

unfoldable pub gets : {A : Type 0} → (Service → A) → Action A
gets f s = (ok (f s), s)

unfoldable pub modify : (Service → Service) → Action (Unit {0})
modify f s = (ok tt, f s)

-- A write of the store that cannot fail.
unfoldable pub write : (Store → Store) → Action (Unit {0})
write f s = (ok tt, record s { store = f s.store })

unfoldable stored : Result Store → Service → Result (Unit {0}) × Service
stored (ok t) s = (ok tt, record s { store = t })
stored (err e) s = (err e, s)

-- A write of the store that may fail and then changes nothing.
unfoldable pub update : (Store → Result Store) → Action (Unit {0})
unfolding stored
update f s = stored (f s.store) s

unfoldable committed : {A : Type 0} → Result (A × Store) → Service → Result A × Service
committed (ok (a, t)) s = (ok a, record s { store = t })
committed (err e) s = (err e, s)

-- The same for a write that also answers.
unfoldable pub commit : {A : Type 0} → (Store → Result (A × Store)) → Action A
unfolding committed
commit f s = committed (f s.store) s

-- The caller drops an error and goes on from the state that the operation left.
unfoldable pub attempt : {A : Type 0} → Action A → Action (Result A)
attempt m s = let (r, s') = m s in (ok r, s')

module _ (env : Env) where
  -- time.Now().UTC()
  unfoldable pub read_clock : Action Time
  read_clock s = (ok (env.now s.readings), record s { readings = s.readings + 1 })

  -- util.NewID(prefix)
  unfoldable pub new_id : String → Action String
  new_id prefix s =
      (ok (prefix <> "_" <> env.random_hex 8 s.readings), record s { readings = s.readings + 1 })

  -- util.NewToken()
  unfoldable pub new_token : Action String
  new_token s = (ok (env.random_hex 24 s.readings), record s { readings = s.readings + 1 })

  -- session.Send(message)
  unfoldable pub deliver : Session → ServerMessage → Action (Option String)
  deliver session message s =
      let failed = env.send s.readings session message in
      (
        ok failed,
        record s {
          readings = s.readings + 1;
          sent = elim failed [ none ↦ (session.session_id, message) ∷ s.sent | some _ ↦ s.sent ];
        },
      )
