-- ===== src/Core/Soundness/Stable.antt =====
-- Operations that change nothing vital but the alerts and the times that devices were last seen:
-- they keep every predicate that such changes keep.
use getdata.Base.{
  String, ◌≡◌, refl, Option, none, some, Result, ok, err, arith, Error, unnamed, shadow_not_found,
}
use getdata.Base.Dict.{Dict}
use getdata.Model.{
  Time, Value, Device, Command, CommandStatus, DeviceShadow, AlertEvent, ConfigProfile, OtaCampaign,
  Product, ServerMessage,
}
use getdata.Store.{Store}
use getdata.Store.Catalog.{save_config_profile, save_ota_campaign, create_ota_campaign}
use getdata.Store.Records.{
  save_shadow, save_command, update_command_status, append_alert, save_alert,
}
use getdata.Core.State.{
  Env, Session, Service, modify, write, update, commit, read_clock, new_id, deliver,
}
use getdata.Core.State.Preserves.{
  Preserves, Preserves-bind, Preserves-modify, Preserves-write, Preserves-update, Preserves-commit,
  preserve_rules,
}
use getdata.Core.Sessions.{touch_device, record_command_published}
use getdata.Core.Shadows.{
  when_product, in_scope, shadow_or_new, ensure_shadow, update_desired_shadow, apply_config_profile,
}
use getdata.Core.Commands.{
  mark_failed, mark_sent, send_over, send_command_with_campaign, update_campaign_from_command_ack,
  handle_command_ack, count_command_sent, count_command_ack,
}
use getdata.Core.Soundness.{vital}

pub record IsStable (P : Service → Type 0) : Type 0 where
  pub same : (s t : Service) → vital t ≡ vital s → P s → P t
  pub touched : (d : String) (at : Time) (s : Service) → P s → P (touch_device d at s)
  pub resaved :
      (a : AlertEvent) (s : Service) (t : Store)
      → save_alert a s.store ≡ ok t
      → P s
      → P (record s { store = t })
  pub alerted :
      (a : AlertEvent) (s : Service) → P s → P (record s { store = append_alert a s.store })

module _ {P : Service → Type 0} (stable : IsStable P) (env : Env) where
  pub read_clock-Preserves : Preserves P (read_clock env)
  unfolding read_clock
  read_clock-Preserves = record { holds = λ s p. stable.same s _ refl p }

  pub new_id-Preserves : (prefix : String) → Preserves P (new_id env prefix)
  unfolding new_id
  new_id-Preserves prefix = record { holds = λ s p. stable.same s _ refl p }

  pub deliver-Preserves :
      (session : Session) (m : ServerMessage) → Preserves P (deliver env session m)
  unfolding deliver
  deliver-Preserves session m = record { holds = λ s p. stable.same s _ refl p }

  pub touch-Preserves : (d : String) (at : Time) → Preserves P (modify (touch_device d at))
  touch-Preserves d at = Preserves-modify _ (λ s p. stable.touched d at s p)

  pub save_shadow-Preserves : (x : DeviceShadow) → Preserves P (write (save_shadow x))
  unfolding save_shadow
  save_shadow-Preserves x = Preserves-write _ (λ s p. stable.same s _ refl p)

  save_command-Preserves : (c : Command) → Preserves P (write (save_command c))
  unfolding save_command
  save_command-Preserves c = Preserves-write _ (λ s p. stable.same s _ refl p)

  pub append_alert-Preserves : (a : AlertEvent) → Preserves P (write (append_alert a))
  append_alert-Preserves a = Preserves-write _ (λ s p. stable.alerted a s p)

  save_config_profile-Preserves : (x : ConfigProfile) → Preserves P (update (save_config_profile x))
  unfolding save_config_profile
  save_config_profile-Preserves x = Preserves-update _ (λ s t h p. stable.same s _ (ground arith) p)

  pub save_ota_campaign-Preserves : (x : OtaCampaign) → Preserves P (update (save_ota_campaign x))
  unfolding save_ota_campaign
  save_ota_campaign-Preserves x = Preserves-update _ (λ s t h p. stable.same s _ (ground arith) p)

  pub create_ota_campaign-Preserves :
      (x : OtaCampaign) → Preserves P (update (create_ota_campaign x))
  unfolding create_ota_campaign
  create_ota_campaign-Preserves x = Preserves-update _ (λ s t h p. stable.same s _ (ground arith) p)

  pub save_alert-Preserves : (x : AlertEvent) → Preserves P (update (save_alert x))
  save_alert-Preserves x = Preserves-update _ (λ s t h p. stable.resaved x s t h p)

  update_command_status-Preserves :
      (now : Time) (id : String) (status : CommandStatus) (result : String)
      → Preserves P (commit (update_command_status now id status result))
  unfolding update_command_status
  update_command_status-Preserves now id status result =
      Preserves-commit _ (λ s a t h p. stable.same s _ (ground arith) p)

  pub when_product-Preserves :
      (product : Option Product) (check : Product → Result (Unit {0}))
      → Preserves P (when_product product check)
  unfolding when_product
  when_product-Preserves none check = search preserve_rules
  when_product-Preserves (some product) check = search preserve_rules

  pub in_scope-Preserves :
      (scope actual : String) (e : Error) → Preserves P (in_scope scope actual e)
  unfolding in_scope
  in_scope-Preserves scope actual e = search preserve_rules

  ruleset atom_rules = (
    read_clock-Preserves, new_id-Preserves, deliver-Preserves, touch-Preserves,
    save_shadow-Preserves, save_command-Preserves, append_alert-Preserves,
    save_config_profile-Preserves, save_ota_campaign-Preserves, create_ota_campaign-Preserves,
    update_command_status-Preserves, when_product-Preserves, in_scope-Preserves,
  )

  shadow_or_new-Preserves :
      (device : Device) (found : Result DeviceShadow) → Preserves P (shadow_or_new env device found)
  shadow_or_new-Preserves device (ok shadow) = search preserve_rules
  shadow_or_new-Preserves device (err shadow_not_found) = search (preserve_rules, atom_rules)
  shadow_or_new-Preserves device (err e) = search preserve_rules

  pub ensure_shadow-Preserves : (device : Device) → Preserves P (ensure_shadow env device)
  unfolding ensure_shadow
  ensure_shadow-Preserves device = search (preserve_rules, atom_rules, shadow_or_new-Preserves)

  pub update_desired_shadow-Preserves :
      (device_id : String) (desired : Dict Value)
      → Preserves P (update_desired_shadow env device_id desired)
  unfolding update_desired_shadow
  update_desired_shadow-Preserves device_id desired =
      search (preserve_rules, atom_rules, ensure_shadow-Preserves) depth 16

  pub apply_config_profile-Preserves :
      (profile_id device_id : String) → Preserves P (apply_config_profile env profile_id device_id)
  unfolding apply_config_profile
  apply_config_profile-Preserves profile_id device_id =
      search (preserve_rules, atom_rules, update_desired_shadow-Preserves) depth 16

  mark_failed-Preserves :
      (c : Command) (text : String) (e : Error) → Preserves P (mark_failed env c text e)
  unfolding mark_failed
  mark_failed-Preserves c text e = search (preserve_rules, atom_rules)

  count_published-Preserves :
      (transport : String) → Preserves P (modify (record_command_published transport))
  unfolding record_command_published
  count_published-Preserves transport = Preserves-modify _ (λ s p. stable.same s _ (ground arith) p)

  count_sent-Preserves : Preserves P (modify count_command_sent)
  count_sent-Preserves = Preserves-modify _ (λ s p. stable.same s _ refl p)

  count_ack-Preserves : Preserves P (modify count_command_ack)
  count_ack-Preserves = Preserves-modify _ (λ s p. stable.same s _ refl p)

  mark_sent-Preserves :
      (c : Command) (session : Session) (now : Time) → Preserves P (mark_sent env c session now)
  unfolding mark_sent
  mark_sent-Preserves c session now =
      search (preserve_rules, atom_rules, count_published-Preserves, count_sent-Preserves)

  after_send-Preserves :
      (c : Command) (session : Session) (now : Time) (failed : Option String)
      → Preserves P (elim failed [
        | some text ↦ mark_failed env c text (unnamed text)
        | none ↦ mark_sent env c session now
      ])
  after_send-Preserves c session now none = mark_sent-Preserves c session now
  after_send-Preserves c session now (some text) = mark_failed-Preserves c text (unnamed text)

  send_over-Preserves :
      (c : Command) (now : Time) (session : Option Session)
      → Preserves P (send_over env c now session)
  unfolding send_over
  send_over-Preserves c now none = mark_failed-Preserves c _ _
  send_over-Preserves c now (some session) =
      Preserves-bind _ _ (deliver-Preserves session _) (after_send-Preserves c session now)

  pub send_command-Preserves :
      (device_id campaign_id name : String) (params : Dict Value)
      → Preserves P (send_command_with_campaign env device_id campaign_id name params)
  unfolding send_command_with_campaign
  send_command-Preserves device_id campaign_id name params =
      search (preserve_rules, atom_rules, send_over-Preserves) depth 16

  update_campaign-Preserves :
      (campaign_id : String) (status : CommandStatus)
      → Preserves P (update_campaign_from_command_ack env campaign_id status)
  unfolding update_campaign_from_command_ack
  update_campaign-Preserves campaign_id status = search (preserve_rules, atom_rules)

  pub handle_command_ack-Preserves :
      (device_id command_id status result : String)
      → Preserves P (handle_command_ack env device_id command_id status result)
  unfolding handle_command_ack
  handle_command_ack-Preserves device_id command_id status result =
      search (preserve_rules, atom_rules, update_campaign-Preserves, count_ack-Preserves) depth 16
