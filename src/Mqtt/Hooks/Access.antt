-- ===== src/Mqtt/Hooks/Access.antt =====
-- What a client may do, and which topics its binding has.
use getdata.Base.{
  String, ◌≡◌, refl, Bool, true, false, ◌||◌, Option, some, List, [], ◌∷◌, ◌==◌, Result, ok, err,
  product_not_found, arith, eq_iff, Bool-cases, inl, inr, subst⁻¹, subst,
}
use getdata.Base.Dict.{lookup, insert, erase}
use getdata.Base.Text.{trim_space}
use getdata.Store.Catalog.{get_product}
use getdata.Model.{Device, Product, ProductAccessProfile}
use getdata.Core.State.{Env, Service, modify, pure, continue, ◌>>=◌, query, attempt}
use getdata.Core.Sessions.{authenticate_device}
use getdata.Ingest.{Platform}
use getdata.Mqtt.Topics.{Routing}
use getdata.Mqtt.Topics.Routes.{IsRouted, Distinct, IsRouted-Distinct, resolve_routing-IsRouted}
use getdata.Mqtt.Topics.Matching.{mqtt_topic_match_refl}
use getdata.Mqtt.Hooks.{
  ClientBinding, Bindings, bind, claimed_device, turn_away, let_in, with_product, with_device,
  on_connect_authenticate, on_acl_check, on_disconnect, Event, connect, establish, disconnect,
  publish, kept, on_event, on_events,
}

-- The answer of a hook to a connection, for a client that gave this user name and this password.
pub data Admission (client_id username password : String) (b : Bindings) (s : Service)
    : Result (Bool × Bindings) → Type 0 where
  refused : Admission client_id username password b s (ok (false, b))
  admitted :
      (device : Device) (profile : ProductAccessProfile)
      → (authenticate_device (claimed_device client_id username) (trim_space password) s).0
        ≡ ok device
      → Admission client_id username password b s
          (ok (true, insert client_id (bind device profile) b))

module _ (client_id username password : String) (b : Bindings) (s : Service) where
  abbrev Answer : Result (Bool × Bindings) → Type 0
  Answer = Admission client_id username password b s

  turn_away-Answer : (t : Service) → Answer (turn_away b t).0
  unfolding turn_away ◌>>=◌ modify pure
  turn_away-Answer t = refused

  module _ (device : Device)
      (known : (authenticate_device (claimed_device client_id username) (trim_space password) s).0
        ≡ ok device) where
    let_in-Answer :
        (profile : ProductAccessProfile) (t : Service)
        → Answer (let_in client_id device profile b t).0
    unfolding let_in ◌>>=◌ modify pure
    let_in-Answer profile t = admitted device profile known

    with_product-Answer :
        (r : Result Product) (t : Service) → Answer (with_product client_id device b r t).0
    with_product-Answer (ok product) t = let_in-Answer product.access_profile t
    with_product-Answer (err product_not_found) t = let_in-Answer _ t
    with_product-Answer (err _) t = turn_away-Answer t

    with_device-Answer : (t : Service) → Answer (with_device client_id b (ok device) t).0
    unfolding ◌>>=◌ attempt query
    with_device-Answer t = elim (Bool-cases (device.product_id == "")) [
      | inl h ↦ rw h (let_in-Answer _ t)
      | inr h ↦ rw h (with_product-Answer (get_product (trim_space device.product_id) t.store) t)
    ]

  authenticated-Answer :
      (r : Result Device) (t : Service)
      → (authenticate_device (claimed_device client_id username) (trim_space password) s).0 ≡ r
      → Answer (with_device client_id b r t).0
  authenticated-Answer (err _) t e = turn_away-Answer t
  authenticated-Answer (ok device) t e = with_device-Answer device e t

  -- A connection is refused and changes no binding, or the client is bound to the device whose
  -- credentials it gave, and to no other.
  pub on_connect-Admission : Answer (on_connect_authenticate client_id username password b s).0
  unfolding on_connect_authenticate ◌>>=◌ attempt
  on_connect-Admission =
      elim (Bool-cases (claimed_device client_id username == "" || trim_space password == "")) [
        | inl h ↦ rw h (turn_away-Answer s)
        | inr h ↦ rw h (authenticated-Answer _ _ refl)
      ]

-- Every binding has the topics that resolveRouting gives its device.
abbrev pub AllRouted : Bindings → Type 0
AllRouted [] = Unit
AllRouted ((_, binding) ∷ b) = IsRouted binding.routing × AllRouted b

insert-AllRouted :
    (k : String) (binding : ClientBinding) (b : Bindings)
    → IsRouted binding.routing
    → AllRouted b
    → AllRouted (insert k binding b)
unfolding insert
insert-AllRouted k binding [] r all = (r, tt)
insert-AllRouted k binding ((j, other) ∷ b) r (first, all) =
    ground (arith, insert-AllRouted k binding b r all)

erase-AllRouted : (k : String) (b : Bindings) → AllRouted b → AllRouted (erase k b)
unfolding erase
erase-AllRouted k [] all = tt
erase-AllRouted k ((j, other) ∷ b) (first, all) = ground (arith, erase-AllRouted k b all)

same_binding : {a b : ClientBinding} → ◌≡◌ {A = Option ClientBinding} (some a) (some b) → a ≡ b
same_binding h = ground arith

lookup-AllRouted :
    (k : String) (binding : ClientBinding) (b : Bindings)
    → AllRouted b
    → lookup k b ≡ some binding
    → IsRouted binding.routing
unfolding lookup
lookup-AllRouted k binding [] all e = absurd (ground arith)
lookup-AllRouted k binding ((j, other) ∷ b) (first, all) e = elim (Bool-cases (j == k)) [
  | inl h ↦
      let e' : other ≡ binding = same_binding (ground arith) in
      subst (λ x. IsRouted x.routing) e' first
  | inr h ↦ lookup-AllRouted k binding b all (ground arith)
]

Admission-AllRouted :
    (client_id username password : String) (b : Bindings) (s : Service)
    (x : Result (Bool × Bindings) × Service)
    → Admission client_id username password b s x.0
    → AllRouted b
    → AllRouted (kept (λ r. r.1) b x).0
Admission-AllRouted client_id username password b s (_, t) refused all = all
Admission-AllRouted client_id username password b s (_, t) (admitted device profile h) all =
    insert-AllRouted client_id (bind device profile) b (resolve_routing-IsRouted profile device.id)
      all

kept-id : {A : Type 0} (b : Bindings) (x : Result A × Service) → (kept (λ _. b) b x).0 ≡ b
kept-id b (ok _, s) = refl
kept-id b (err _, s) = refl

kept-AllRouted :
    {A : Type 0} (b : Bindings) (x : Result A × Service)
    → AllRouted b
    → AllRouted (kept (λ _. b) b x).0
kept-AllRouted b x all = subst⁻¹ AllRouted (kept-id b x) all

module _ (env : Env) where
  disconnected-AllRouted :
      (client_id : String) (b : Bindings) (x : Result (Unit {0}) × Service)
      → AllRouted b
      → AllRouted (kept (λ b. b) b (continue x.0 (λ _. pure (erase client_id b)) x.1)).0
  unfolding pure
  disconnected-AllRouted client_id b (ok _, s) all = erase-AllRouted client_id b all
  disconnected-AllRouted client_id b (err _, s) all = all

  on_event-AllRouted :
      (platform : Platform) (event : Event) (b : Bindings) (s : Service)
      → AllRouted b
      → AllRouted (on_event env platform event (b, s)).0
  unfolding on_event on_disconnect ◌>>=◌
  on_event-AllRouted platform (connect client_id username password) b s all =
      Admission-AllRouted client_id username password b s _
        (on_connect-Admission client_id username password b s) all
  on_event-AllRouted platform (establish client_id) b s all = kept-AllRouted b _ all
  on_event-AllRouted platform (disconnect client_id) b s all =
      disconnected-AllRouted client_id b _ all
  on_event-AllRouted platform (publish client packet) b s all = kept-AllRouted b _ all

  on_events-AllRouted :
      (platform : Platform) (events : List Event) (b : Bindings) (s : Service)
      → AllRouted b
      → AllRouted (on_events env platform events (b, s)).0
  unfolding on_events
  on_events-AllRouted platform [] b s all = all
  on_events-AllRouted platform (event ∷ events) b s all =
      on_events-AllRouted platform events _ _ (on_event-AllRouted platform event b s all)

  -- What a client with this binding may do: publish to its up and ack topics, subscribe to its down
  -- topic, and not publish to its down topic, where it takes its commands from.
  abbrev pub MayUse : Bindings → String → Routing → Type 0
  MayUse b client_id r =
      (on_acl_check b client_id r.up_topic true ≡ true)
      × (on_acl_check b client_id r.ack_topic true ≡ true)
      × (on_acl_check b client_id r.down_topic false ≡ true)
      × (on_acl_check b client_id r.down_topic true ≡ false)

  bound-MayUse :
      (b : Bindings) (client_id : String) (binding : ClientBinding)
      → lookup client_id b ≡ some binding
      → Distinct binding.routing
      → MayUse b client_id binding.routing
  unfolding on_acl_check
  bound-MayUse b client_id binding e d = ground (
    arith,
    e,
    d.up_down,
    d.down_ack,
    eq_iff binding.routing.up_topic binding.routing.up_topic,
    eq_iff binding.routing.ack_topic binding.routing.ack_topic,
    eq_iff binding.routing.down_topic binding.routing.up_topic,
    eq_iff binding.routing.down_topic binding.routing.ack_topic,
    mqtt_topic_match_refl binding.routing.down_topic,
  )

  -- After any events on a broker without clients, a bound client may publish to its up and ack topics
  -- and subscribe to its down topic, and it may not publish to its down topic.
  pub on_events-MayUse :
      (platform : Platform) (events : List Event) (s : Service) (client_id : String)
      (binding : ClientBinding)
      → lookup client_id (on_events env platform events ([], s)).0 ≡ some binding
      → MayUse (on_events env platform events ([], s)).0 client_id binding.routing
  on_events-MayUse platform events s client_id binding e = bound-MayUse _ client_id binding e (
      IsRouted-Distinct binding.routing
        (lookup-AllRouted client_id binding _ (on_events-AllRouted platform events [] s tt) e))
