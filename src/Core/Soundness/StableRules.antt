-- ===== src/Core/Soundness/StableRules.antt =====
-- The rules and the campaigns keep what the operations that they call keep, if the run-time state of
-- the rules may change.
use getdata.Base.{
  String, refl, List, [], ◌∷◌, Option, none, some, Result, ok, err, device_not_found, if◌then◌else◌,
}
use getdata.Base.Dict.{Dict, lookup}
use getdata.Model.{
  Time, Value, Device, Telemetry, Rule, RuleAction, OtaCampaign, FirmwareArtifact, AlertStatus,
  AlertEvent,
}
use getdata.Core.Values.{matches_rule_condition}
use getdata.Core.State.{Env, Service, pure, modify, read_clock}
use getdata.Core.State.Preserves.{
  Preserves, Preserves-bind, Preserves-modify, Preserves-pure, preserve_rules,
}
use getdata.Core.Rules.{
  record_rule_trigger, execute_action, execute_each, execute_rule_actions, groups_or_none,
  read_membership, cached_membership, trigger, trigger_if_ready, fire, evaluate_each,
  evaluate_rules,
}
use getdata.Core.Alerts.{update_alert, change_status}
use getdata.Core.Ota.{
  target_product, resolve_ota_target_product, resolve_ota_target_devices, dispatch_each,
  dispatch_ota_campaign, create_campaign,
}
use getdata.Core.Soundness.Stable.{
  IsStable, new_id-Preserves, read_clock-Preserves, append_alert-Preserves,
  apply_config_profile-Preserves, send_command-Preserves, in_scope-Preserves,
  save_ota_campaign-Preserves, create_ota_campaign-Preserves, save_alert-Preserves,
}

module _ {P : Service → Type 0} (stable : IsStable P) (env : Env) where
  execute_action-Preserves :
      (rule : Rule) (device : Device) (telemetry : Telemetry) (value : Value) (action : RuleAction)
      → Preserves P (execute_action env rule device telemetry value action)
  unfolding execute_action
  execute_action-Preserves rule device telemetry value action =
      search
        (
          preserve_rules,
          send_command-Preserves stable env,
          apply_config_profile-Preserves stable env,
          new_id-Preserves stable env,
          append_alert-Preserves stable env,
        )
        depth 16

  execute_each-Preserves :
      (rule : Rule) (device : Device) (telemetry : Telemetry) (value : Value)
      (actions : List RuleAction)
      → Preserves P (execute_each env rule device telemetry value actions)
  unfolding execute_each
  execute_each-Preserves rule device telemetry value [] = Preserves-pure tt
  execute_each-Preserves rule device telemetry value (a ∷ rest) =
      Preserves-bind _ _ (execute_action-Preserves rule device telemetry value a)
        (λ _. execute_each-Preserves rule device telemetry value rest)

  note-Preserves :
      (rule : Rule) (device : Device) (at : Time)
      → Preserves P (
          modify (λ s. record s {
            rule_states = record_rule_trigger rule.id device.id at s.rule_states;
          }))
  note-Preserves rule device at = Preserves-modify _ (λ s p. stable.same s _ refl p)

  trigger-Preserves :
      (rule : Rule) (device : Device) (telemetry : Telemetry) (value : Value)
      → Preserves P (trigger env rule device telemetry value)
  unfolding trigger execute_rule_actions
  trigger-Preserves rule device telemetry value =
      Preserves-bind _ _ (execute_each-Preserves rule device telemetry value _)
        (λ _. note-Preserves rule device telemetry.timestamp)

  trigger_if_ready-Preserves :
      (rule : Rule) (device : Device) (telemetry : Telemetry) (value : Value)
      → Preserves P (trigger_if_ready env rule device telemetry value)
  unfolding trigger_if_ready
  trigger_if_ready-Preserves rule device telemetry value =
      search (preserve_rules, trigger-Preserves)

  pub fire-Preserves :
      (rule : Rule) (device : Device) (telemetry : Telemetry)
      → Preserves P (fire env rule device telemetry)
  unfolding fire
  fire-Preserves rule device telemetry = cases (lookup rule.condition.property telemetry.values)
    where
      cases :
          (found : Option Value)
          → Preserves P (elim found [
            | none ↦ pure tt
            | some value ↦
                if matches_rule_condition env.sprint rule.condition.operator value
                  rule.condition.value
                then trigger_if_ready env rule device telemetry value
                else pure tt
          ])
      cases none = Preserves-pure tt
      cases (some value) = search (preserve_rules, trigger_if_ready-Preserves)

  groups_or_none-Preserves : (r : Result (List String)) → Preserves P (groups_or_none env r)
  groups_or_none-Preserves (ok ids) = search preserve_rules
  groups_or_none-Preserves (err device_not_found) = search preserve_rules
  groups_or_none-Preserves (err e) = search preserve_rules

  cached_membership-Preserves :
      (device : Device) (cache : Option (List String))
      → Preserves P (cached_membership env device cache)
  unfolding cached_membership read_membership
  cached_membership-Preserves device (some ids) = Preserves-pure ids
  cached_membership-Preserves device none = search (preserve_rules, groups_or_none-Preserves)

  evaluate_each-Preserves :
      (device : Device) (telemetry : Telemetry) (cache : Option (List String)) (rules : List Rule)
      → Preserves P (evaluate_each env device telemetry cache rules)
  unfolding evaluate_each
  evaluate_each-Preserves device telemetry cache [] = Preserves-pure tt
  evaluate_each-Preserves device telemetry cache (rule ∷ rest) =
      search
        (
          preserve_rules,
          fire-Preserves,
          cached_membership-Preserves,
          λ (c : Option (List String)). evaluate_each-Preserves device telemetry c rest,
        )
        depth 16

  pub evaluate_rules-Preserves :
      (device : Device) (telemetry : Telemetry) → Preserves P (evaluate_rules env device telemetry)
  unfolding evaluate_rules
  evaluate_rules-Preserves device telemetry = search (preserve_rules, evaluate_each-Preserves)

  clock-Preserves : Preserves P (read_clock env)
  clock-Preserves = read_clock-Preserves stable env

  change_status-Preserves :
      (alert : AlertEvent) (note : String) (status : Option AlertStatus)
      → Preserves P (change_status env alert note status)
  change_status-Preserves alert note none = search preserve_rules
  change_status-Preserves alert note (some status) =
      Preserves-bind _ _ (clock-Preserves)
        λ now. search (preserve_rules, save_alert-Preserves stable env)

  pub update_alert-Preserves :
      (alert_id status note : String) → Preserves P (update_alert env alert_id status note)
  unfolding update_alert
  update_alert-Preserves alert_id status note = search (preserve_rules, change_status-Preserves)

  dispatch_each-Preserves :
      (params : Dict Value) (ids : List String) (campaign : OtaCampaign)
      → Preserves P (dispatch_each env params ids campaign)
  unfolding dispatch_each
  dispatch_each-Preserves params [] campaign = Preserves-pure campaign
  dispatch_each-Preserves params (id ∷ rest) campaign =
      search
        (
          preserve_rules,
          send_command-Preserves stable env,
          λ (c : OtaCampaign). dispatch_each-Preserves params rest c,
        )
        depth 8

  dispatch_ota_campaign-Preserves :
      (campaign : OtaCampaign) (artifact : FirmwareArtifact)
      → Preserves P (dispatch_ota_campaign env campaign artifact)
  unfolding dispatch_ota_campaign resolve_ota_target_devices
  dispatch_ota_campaign-Preserves campaign artifact =
      search
        (
          preserve_rules,
          clock-Preserves,
          save_ota_campaign-Preserves stable env,
          dispatch_each-Preserves,
        )
        depth 16

  resolve-Preserves :
      (tenant_id : String) (artifact : FirmwareArtifact) (product_id group_id device_id : String)
      → Preserves P (resolve_ota_target_product tenant_id artifact product_id group_id device_id)
  unfolding resolve_ota_target_product target_product
  resolve-Preserves tenant_id artifact product_id group_id device_id =
      search (preserve_rules, in_scope-Preserves stable env) depth 24

  pub create_campaign-Preserves :
      (tenant_id name firmware_id product_id group_id device_id : String)
      → Preserves P (create_campaign env tenant_id name firmware_id product_id group_id device_id)
  unfolding create_campaign
  create_campaign-Preserves tenant_id name firmware_id product_id group_id device_id =
      search
        (
          preserve_rules,
          clock-Preserves,
          new_id-Preserves stable env,
          create_ota_campaign-Preserves stable env,
          resolve-Preserves,
          dispatch_ota_campaign-Preserves,
        )
        depth 24
