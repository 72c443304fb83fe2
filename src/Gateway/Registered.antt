-- ===== src/Gateway/Registered.antt =====
-- Which connections leave their session registered: those that ask twice for authentication.
use getdata.Base.{
  ℕ, String, ◌≡◌, ◌≢◌, refl, sym, ap, Bool, true, false, ◌||◌, Option, none, some, List, [], ◌∷◌,
  ◌==◌, eq_iff, Result, ok, err, arith, Bool-cases, inl, inr, subst⁻¹, Option-cases, ◌∙◌,
}
use getdata.Base.Dict.{Dict, lookup-insert}
use getdata.Model.{
  Time, Value, DeviceMessage, ServerMessage, Telemetry, Device, DeviceShadow, Product,
}
use getdata.Store.Records.{append_telemetry, save_shadow}
use getdata.Core.State.{
  Session, Env, Service, state_of, ◌>>=◌, pure, write, modify, read_clock, deliver,
}
use getdata.Core.State.Preserves.{Preserves, Preserves-modify, Preserves-write, preserve_rules}
use getdata.Core.Sessions.{
  touch_device, touched, record_tcp_telemetry_accepted, record_command_ack_transport,
}
use getdata.Core.Shadows.{ensure_shadow, when_product}
use getdata.Core.Rules.{evaluate_rules}
use getdata.Core.Telemetry.{handle_telemetry, count_telemetry}
use getdata.Core.Soundness.{Vital}
use getdata.Core.Soundness.Stable.{
  IsStable, read_clock-Preserves, deliver-Preserves, touch-Preserves, save_shadow-Preserves,
  when_product-Preserves, ensure_shadow-Preserves, handle_command_ack-Preserves,
}
use getdata.Core.Soundness.StableRules.{evaluate_rules-Preserves}
use getdata.Gateway.{
  Line, Connection, on_auth, after_report, on_telemetry, after_ack, on_ack, on_other, on_message,
  on_decoded, handle_line, serve,
}
use getdata.Gateway.Ends.{holds_session, as_device, finish_ends, NotAuth, handle_line-Yields}

abbrev pub asks_auth : Option DeviceMessage → Bool
asks_auth none = false
asks_auth (some m) = m.type == "auth"

-- Whether a line asks for authentication.
abbrev pub any_auth : List Line → Bool
any_auth [] = false
any_auth (line ∷ rest) = asks_auth line.decoded || any_auth rest

module _ (env : Env) (session : Session) (d : String) where
  record IsHeld (s : Service) : Type 0 where
    held : holds_session env session d s ≡ true

  touch-IsHeld : (k : String) (at : Time) (s : Service) → IsHeld s → IsHeld (touch_device k at s)
  unfolding touch_device touched state_of
  touch-IsHeld k at s p = record {
    held =
        ground (
          arith,
          p.held,
          lookup-insert d k (touched at (state_of k s.states)) s.states,
          eq_iff k d,
        );
  }

  IsHeld-IsStable : IsStable IsHeld
  IsHeld-IsStable = record {
    same = λ s t e p. record {
      held =
          subst⁻¹ (λ states. holds_session env session d (record s { states = states }) ≡ true)
            (ap (λ (v : Vital). v.states) e) p.held;
    };
    touched = touch-IsHeld;
    resaved = λ a s t e p. record { held = p.held };
    alerted = λ a s p. record { held = p.held };
  }

  append-IsHeld : (x : Telemetry) → Preserves IsHeld (write (append_telemetry x))
  append-IsHeld x = Preserves-write _ (λ s p. record { held = p.held })

  counted-IsHeld : Preserves IsHeld (modify count_telemetry)
  counted-IsHeld = Preserves-modify _ (λ s p. record { held = p.held })

  clock-IsHeld : Preserves IsHeld (read_clock env)
  clock-IsHeld = read_clock-Preserves IsHeld-IsStable env

  deliver-IsHeld : (m : ServerMessage) → Preserves IsHeld (deliver env session m)
  deliver-IsHeld = deliver-Preserves IsHeld-IsStable env session

  seen-IsHeld : (k : String) (at : Time) → Preserves IsHeld (modify (touch_device k at))
  seen-IsHeld = touch-Preserves IsHeld-IsStable env

  save_shadow-IsHeld : (x : DeviceShadow) → Preserves IsHeld (write (save_shadow x))
  save_shadow-IsHeld = save_shadow-Preserves IsHeld-IsStable env

  when_product-IsHeld :
      (product : Option Product) (check : Product → Result (Unit {0}))
      → Preserves IsHeld (when_product product check)
  when_product-IsHeld = when_product-Preserves IsHeld-IsStable env

  ensure_shadow-IsHeld : (device : Device) → Preserves IsHeld (ensure_shadow env device)
  ensure_shadow-IsHeld = ensure_shadow-Preserves IsHeld-IsStable env

  evaluate_rules-IsHeld :
      (device : Device) (x : Telemetry) → Preserves IsHeld (evaluate_rules env device x)
  evaluate_rules-IsHeld = evaluate_rules-Preserves IsHeld-IsStable env

  ruleset held_rules = (
    clock-IsHeld, deliver-IsHeld, seen-IsHeld, save_shadow-IsHeld, when_product-IsHeld,
    ensure_shadow-IsHeld, evaluate_rules-IsHeld, append-IsHeld, counted-IsHeld,
  )

  handle_telemetry-IsHeld :
      (device_id : String) (at : Time) (values : Dict Value)
      → Preserves IsHeld (handle_telemetry env device_id at values)
  unfolding handle_telemetry
  handle_telemetry-IsHeld device_id at values = search (preserve_rules, held_rules) depth 24

  reported-IsHeld : (a b : ℕ) → Preserves IsHeld (modify (record_tcp_telemetry_accepted a b))
  unfolding record_tcp_telemetry_accepted
  reported-IsHeld a b = Preserves-modify _ (λ s p. record { held = p.held })

  acked-IsHeld : (t : String) → Preserves IsHeld (modify (record_command_ack_transport t))
  unfolding record_command_ack_transport
  acked-IsHeld t = Preserves-modify _ (λ s p. record { held = p.held })

  after_report-IsHeld :
      (bytes : ℕ) (m : DeviceMessage) (r : Result (Unit {0}))
      → Preserves IsHeld (after_report env session bytes m r)
  after_report-IsHeld bytes m (err e) = search (preserve_rules, held_rules)
  after_report-IsHeld bytes m (ok _) = reported-IsHeld _ _

  after_ack-IsHeld : (r : Result (Unit {0})) → Preserves IsHeld (after_ack env session r)
  after_ack-IsHeld (err e) = search (preserve_rules, held_rules)
  after_ack-IsHeld (ok _) = acked-IsHeld "tcp"

  on_other-IsHeld :
      (c : Connection) (now : Time) (bytes : ℕ) (m : DeviceMessage)
      → Preserves IsHeld (on_other env session c now bytes m)
  unfolding on_other on_telemetry on_ack
  on_other-IsHeld c now bytes m =
      search
        (
          preserve_rules,
          held_rules,
          handle_telemetry-IsHeld,
          handle_command_ack-Preserves IsHeld-IsStable env,
          after_report-IsHeld,
          after_ack-IsHeld,
        )
        depth 24

  on_decoded-IsHeld :
      (now : Time) (bytes : ℕ) (decoded : Option DeviceMessage)
      → asks_auth decoded ≡ false
      → Preserves IsHeld (on_decoded env session (as_device env session d) now bytes decoded)
  unfolding on_message
  on_decoded-IsHeld now bytes none h = search (preserve_rules, held_rules)
  on_decoded-IsHeld now bytes (some m) h = rw h (on_other-IsHeld _ now bytes m)

  handle_line-IsHeld :
      (line : Line)
      → asks_auth line.decoded ≡ false
      → Preserves IsHeld (handle_line env session (as_device env session d) line)
  unfolding handle_line
  handle_line-IsHeld line h = search (preserve_rules, held_rules, on_decoded-IsHeld)

  false_not_true : false ≢ true
  false_not_true = λ e. ground arith

  -- A second authentication: the loop is left at once, and the sessions stay as they are.
  states-second_auth :
      (line : Line) (rest : List Line) (s : Service)
      → asks_auth line.decoded ≡ true
      → (serve env session (as_device env session d) (line ∷ rest) s).1.states ≡ s.states
  unfolding serve handle_line ◌>>=◌ on_message on_auth deliver read_clock pure
  states-second_auth line rest s h = elim (Option-cases line.decoded) [
    | inl e ↦ absurd (false_not_true (sym (ap asks_auth e) ∙ h))
    | inr (m, e) ↦ rw (e, sym (ap asks_auth e) ∙ h) refl
  ]

  not_auth : (line : Line) → asks_auth line.decoded ≡ false → NotAuth env session line
  not_auth line h m e = subst⁻¹ (λ x. x ≡ false) (sym (ap asks_auth e)) h

  -- A connection that has authenticated, for a device whose ID is not empty, and that holds the
  -- device's session, still holds it at its end exactly if a later line of it asked for
  -- authentication again: every other connection gives the session up, whatever its lines were and
  -- whichever of them were rejected.
  pub holds-serve :
      (lines : List Line) (s : Service)
      → d ≢ ""
      → holds_session env session d s ≡ true
      → holds_session env session d (serve env session (as_device env session d) lines s).1
        ≡ any_auth lines
  unfolding serve ◌>>=◌
  holds-serve [] s n h = finish_ends env session d s n
  holds-serve (line ∷ rest) s n h = elim (Bool-cases (asks_auth line.decoded)) [
    | inl e ↦ rw e (
        subst⁻¹ (λ states. holds_session env session d (record s { states = states }) ≡ true)
          (states-second_auth line rest s e) h)
    | inr e ↦
        rw (e, (handle_line-Yields env session d line (not_auth line e)).yields s)
          (holds-serve rest _ n ((handle_line-IsHeld line e).holds s record { held = h }).held)
  ]
