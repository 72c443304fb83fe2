-- ===== src/Core/Commands/Outcome.antt =====
-- What the caller of a command learns, against what the store then holds.
use getdata.Base.{
  String, ◌≡◌, refl, Option, none, some, Result, ok, err, Error, arith, inl, inr, Option-cases,
  unnamed, ◌+◌, ◌∷◌, eq_iff,
}
use getdata.Base.Text.{trim_space}
use getdata.Base.Dict.{Dict, lookup, insert, lookup-insert}
use getdata.Model.{Time, Value, Command, CommandStatus}
use getdata.Store.{Store}
use getdata.Store.Clone.{clone_command}
use getdata.Store.Clone.Laws.{clone_command-id}
use getdata.Store.Records.{save_command, get_command, update_command_status}
use getdata.Core.State.{
  Env, Session, Service, Action, continue, ◌>>=◌, ◌>>◌, pure, modify, commit, attempt, read_clock,
  deliver, write, gets, state_of,
}
use getdata.Core.Sessions.{touch_device, record_command_published}
use getdata.Core.Commands.{
  mark_failed, mark_sent, send_over, send_command_with_campaign, new_command, command_message,
}

-- A command that is returned stands in the store as it is returned, and its status says whether it
-- was sent.
abbrev pub Told : Result (Command × Option Error) × Service → Type 0
Told (err e, s) = Unit
Told (ok (c, none), s) = (get_command c.id s.store ≡ ok c) × (c.status ≡ CommandStatus.sent)
Told (ok (c, some e), s) = (get_command c.id s.store ≡ ok c) × (c.status ≡ CommandStatus.failed)

-- The result of a status update of a command that is stored.
abbrev updated : Command → CommandStatus → String → Time → Command
updated c status result now = record c { status = status; result = result; updated_at = now }

stored_update :
    (c : Command) (status : CommandStatus) (result : String) (now : Time) (s : Store)
    → get_command c.id s ≡ ok c
    → (t : Store) × (update_command_status now c.id status result s
        ≡ ok (updated c status result now, t))
      × (get_command c.id t ≡ ok (updated c status result now))
unfolding get_command update_command_status
stored_update c status result now s h =
    let u : Command = updated c status result now in
    elim (Option-cases (lookup c.id s.command_by_id)) [
      | inl e ↦ absurd (ground (arith, e))
      | inr (x, e) ↦ (
        record s { command_by_id = insert c.id (clone_command u) s.command_by_id },
        ground (arith, e, clone_command-id x, clone_command-id u),
        ground (
          arith,
          lookup-insert c.id c.id (clone_command u) s.command_by_id,
          clone_command-id u,
          eq_iff c.id c.id,
        ),
      )
    ]

module _ (env : Env) where
  mark_failed-Told :
      (c : Command) (text : String) (e : Error) (s : Service)
      → get_command c.id s.store ≡ ok c
      → Told (mark_failed env c text e s)
  unfolding mark_failed ◌>>=◌ attempt commit read_clock pure
  mark_failed-Told c text e s h =
      let (t, w, r) = stored_update c CommandStatus.failed text (env.now s.readings) s.store h in
      rw w (r, refl)

  mark_sent-Told :
      (c : Command) (session : Session) (now : Time) (s : Service)
      → get_command c.id s.store ≡ ok c
      → Told (mark_sent env c session now s)
  unfolding mark_sent ◌>>=◌ commit read_clock pure modify touch_device record_command_published
  mark_sent-Told c session now s h =
      let (t, w, r) = stored_update c CommandStatus.sent "sent" (env.now s.readings) s.store h in
      rw w (r, refl)

  -- What `deliver` leaves.
  abbrev delivered : Option String → Command → Time → Session → Service → Service
  delivered failed c now session s = record s {
    readings = s.readings + 1;
    sent = elim failed [
      | none ↦ (session.session_id, command_message c now) ∷ s.sent
      | some _ ↦ s.sent
    ];
  }

  abbrev finish : Option String → Command → Time → Session → Action (Command × Option Error)
  finish failed c now session = elim failed [
    | some text ↦ mark_failed env c text (unnamed text)
    | none ↦ mark_sent env c session now
  ]

  sent-Told :
      (c : Command) (now : Time) (session : Session) (s : Service)
      → get_command c.id s.store ≡ ok c
      → (failed : Option String)
      → Told (finish failed c now session (delivered failed c now session s))
  sent-Told c now session s h none = mark_sent-Told c session now _ h
  sent-Told c now session s h (some text) = mark_failed-Told c text _ _ h

  send_over-Told :
      (c : Command) (now : Time) (session : Option Session) (s : Service)
      → get_command c.id s.store ≡ ok c
      → Told (send_over env c now session s)
  unfolding send_over ◌>>=◌ deliver
  send_over-Told c now none s h = mark_failed-Told c _ _ s h
  send_over-Told c now (some session) s h =
      sent-Told c now session s h (env.send s.readings session (command_message c now))

  get-save : (c : Command) (s : Store) → get_command c.id (save_command c s) ≡ ok c
  unfolding get_command save_command
  get-save c s = ground (
    arith,
    lookup-insert c.id c.id (clone_command c) s.command_by_id,
    clone_command-id c,
    eq_iff c.id c.id,
  )

-- What follows a step tells the truth if it does so whatever the step returns.
later-Told :
    {A : Type 0} (r : Result A) (f : A → Action (Command × Option Error)) (s : Service)
    → ((a : A) (t : Service) → Told (f a t))
    → Told (continue r f s)
later-Told (ok a) f s h = h a s
later-Told (err e) f s h = tt

record Tells (m : Action (Command × Option Error)) : Type 0 where
  tells : (s : Service) → Told (m s)

Tells-bind :
    {A : Type 0} (m : Action A) (f : A → Action (Command × Option Error))
    → ((a : A) → Tells (f a))
    → Tells (m >>= f)
unfolding ◌>>=◌
Tells-bind m f h = record { tells = λ s. later-Told (m s).0 f (m s).1 (λ a t. (h a).tells t) }

Tells-save :
    (env : Env) (device_id : String) (c : Command) (now : Time)
    → Tells (
        write (save_command c)
        >> (gets (λ s. (state_of device_id s.states).session) >>= send_over env c now))
unfolding ◌>>=◌ write gets
Tells-save env device_id c now = record {
  tells = λ s. send_over-Told env c now _ _ (get-save env c s.store);
}

command-Tells :
    (env : Env) (device_id campaign_id name : String) (params : Dict Value)
    → Tells (send_command_with_campaign env device_id campaign_id name params)
unfolding send_command_with_campaign
command-Tells env device_id campaign_id name params = Tells-bind _ _ λ device. Tells-bind _ _ λ _.
    Tells-bind _ _ λ product. Tells-bind _ _ λ _. Tells-bind _ _ λ now. Tells-bind _ _ λ id.
      Tells-save env device_id (new_command id device_id campaign_id (trim_space name) params now)
        now

-- When a command is returned, with or without an error, the store holds it as it is returned, with
-- the status `sent` if there is no error and `failed` if there is one.
pub send_command-Told :
    (env : Env) (device_id campaign_id name : String) (params : Dict Value) (s : Service)
    → Told (send_command_with_campaign env device_id campaign_id name params s)
send_command-Told env device_id campaign_id name params =
    (command-Tells env device_id campaign_id name params).tells
