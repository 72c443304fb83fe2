-- ===== src/Core/Rules.antt =====
-- service.go and automation.go: which rules a report triggers, and what their actions do.
pub mod Cooldown
pub mod Membership
use Prim.Native.String.{◌++◌ as ◌<>◌}
use getdata.Base.{
  ℕ, ◌-◌, ◌*◌, String, Bool, true, ◌&&◌, ◌||◌, not, Option, none, some, List, [], ◌∷◌, ◌==◌,
  if◌then◌else◌, leb, nat_eq, contains, Result, ok, err, device_not_found,
}
use getdata.Base.Dict.{Dict, lookup, insert}
use getdata.Base.Text.{trim_space}
use getdata.Base.Words.{ℤ, pos, negsuc, inc64, signed, max_int, le_ℤ}
use getdata.Model.{Time, Value, Device, Telemetry, Rule, RuleAction, AlertEvent, AlertStatus}
use getdata.Store.Catalog.{list_rules}
use getdata.Store.Groups.{list_group_ids_by_device}
use getdata.Store.Records.{append_alert}
use getdata.Core.Values.{matches_rule_condition}
use getdata.Core.Normalize.{normalize_severity}
use getdata.Core.State.{
  Env, Action, RuleRuntimeState, rule_state_of, ◌>>=◌, ◌>>◌, pure, fail, gets, modify, write,
  attempt, new_id,
}
use getdata.Core.Shadows.{apply_config_profile}
use getdata.Core.Commands.{send_command_with_campaign}

-- makeRuleStateKey
unfoldable pub make_rule_state_key : String → String → String
make_rule_state_key rule_id device_id = rule_id <> "\0" <> device_id

-- at.Sub(u), cut off at the bounds of a time.Duration.
unfoldable pub sub_time : Time → Time → ℤ
sub_time at u =
    if leb u at
    then pos (if leb (at - u) max_int then at - u else max_int)
    else negsuc (if leb (u - at - 1) max_int then u - at - 1 else max_int)

-- time.Duration(seconds) * time.Second for a positive number of seconds, which wraps.
abbrev pub cooldown_duration : ℕ → ℤ
cooldown_duration seconds = signed (seconds * 1000000000)

unfoldable pub can_trigger_rule : String → String → ℤ → Time → Dict RuleRuntimeState → Bool
unfolding make_rule_state_key sub_time rule_state_of
can_trigger_rule rule_id device_id (negsuc _) at states = true
can_trigger_rule rule_id device_id (pos seconds) at states =
    let last = (rule_state_of (make_rule_state_key rule_id device_id) states).last_triggered_at in
    nat_eq seconds 0 || nat_eq last 0 || le_ℤ (cooldown_duration seconds) (sub_time at last)

unfoldable pub record_rule_trigger :
    String → String → Time → Dict RuleRuntimeState → Dict RuleRuntimeState
unfolding make_rule_state_key rule_state_of
record_rule_trigger rule_id device_id at states =
    let key = make_rule_state_key rule_id device_id in
    let runtime = rule_state_of key states in
    insert key
      (record runtime { triggered_count = inc64 runtime.triggered_count; last_triggered_at = at })
      states

-- An action of a rule that has none.
abbrev pub default_action : Rule → RuleAction
default_action rule = record {
  type = "alert";
  name = "";
  params = [];
  config_profile_id = "";
  severity = rule.severity;
  message = "";
}

abbrev pub actions_of : Rule → List RuleAction → List RuleAction
actions_of rule [] = default_action rule ∷ []
actions_of rule (a ∷ rest) = a ∷ rest

-- The scope of a rule that does not depend on groups: a field that is set must be the device's.
unfoldable pub in_rule_scope : Rule → Device → Bool
in_rule_scope rule device =
    rule.enabled
    && (rule.tenant_id == "" || rule.tenant_id == device.tenant_id)
    && (rule.product_id == "" || rule.product_id == device.product_id)
    && (rule.device_id == "" || rule.device_id == device.id)

module _ (env : Env) where
  -- The message of an alert without one: name: property operator threshold, got value.
  abbrev alert_message : Rule → Value → String
  alert_message rule value =
      rule.name
      <> ": "
      <> rule.condition.property
      <> " "
      <> rule.condition.operator
      <> " "
      <> env.sprint rule.condition.value
      <> ", got "
      <> env.sprint value

  unfoldable pub build_rule_alert : String → Rule → Device → Time → Value → RuleAction → AlertEvent
  build_rule_alert id rule device at value action = record {
    id = id;
    rule_id = rule.id;
    rule_name = rule.name;
    tenant_id = device.tenant_id;
    product_id = device.product_id;
    group_id = rule.group_id;
    device_id = device.id;
    device_name = device.name;
    property = rule.condition.property;
    operator = rule.condition.operator;
    threshold = rule.condition.value;
    value = value;
    severity =
        normalize_severity (if action.severity == "" then rule.severity else action.severity);
    status = AlertStatus.new;
    message =
        if trim_space action.message == ""
        then alert_message rule value
        else trim_space action.message;
    note = "";
    ack_at = none;
    resolved_at = none;
    triggered_at = at;
  }

  -- An operation whose result and error are dropped.
  abbrev pub dropped : {A : Type 0} → Action A → Action (Unit {0})
  dropped m = do _ ← attempt m; pure tt

  -- One action; its errors are only logged.
  unfoldable pub execute_action : Rule → Device → Telemetry → Value → RuleAction → Action (Unit {0})
  unfolding build_rule_alert send_command_with_campaign apply_config_profile
  execute_action rule device telemetry value action =
      if action.type == "send_command"
      then dropped (send_command_with_campaign env device.id "" action.name action.params)
      else if action.type == "apply_config_profile"
      then dropped (apply_config_profile env action.config_profile_id device.id)
      else do
        id ← new_id env "alt"
        write (append_alert (build_rule_alert id rule device telemetry.timestamp value action))

  unfoldable pub execute_each :
      Rule → Device → Telemetry → Value → List RuleAction → Action (Unit {0})
  unfolding execute_action
  execute_each rule device telemetry value [] = pure tt
  execute_each rule device telemetry value (a ∷ rest) = do
    execute_action rule device telemetry value a
    execute_each rule device telemetry value rest

  unfoldable pub execute_rule_actions : Rule → Device → Telemetry → Value → Action (Unit {0})
  unfolding execute_each
  execute_rule_actions rule device telemetry value =
      execute_each rule device telemetry value (actions_of rule rule.actions)

  -- The groups of the device; a device that is not found has none.
  abbrev pub groups_or_none : Result (List String) → Action (List String)
  groups_or_none (ok ids) = pure ids
  groups_or_none (err device_not_found) = pure []
  groups_or_none (err e) = fail e

  unfoldable pub read_membership : Device → Action (List String)
  unfolding list_group_ids_by_device
  read_membership device = do
    ids ← gets (λ s. list_group_ids_by_device device.id s.store)
    groups_or_none ids

  -- The groups that were read for an earlier rule serve the later ones.
  unfoldable pub cached_membership : Device → Option (List String) → Action (List String)
  unfolding read_membership
  cached_membership device (some ids) = pure ids
  cached_membership device none = read_membership device

  -- The actions of a rule, and the note of its time.
  unfoldable pub trigger : Rule → Device → Telemetry → Value → Action (Unit {0})
  unfolding execute_rule_actions record_rule_trigger
  trigger rule device telemetry value = do
    execute_rule_actions rule device telemetry value
    modify (λ s. record s {
      rule_states = record_rule_trigger rule.id device.id telemetry.timestamp s.rule_states;
    })

  unfoldable pub trigger_if_ready : Rule → Device → Telemetry → Value → Action (Unit {0})
  unfolding trigger can_trigger_rule
  trigger_if_ready rule device telemetry value = do
    ready ← gets (λ s.
        can_trigger_rule rule.id device.id rule.cooldown_seconds telemetry.timestamp s.rule_states)
    if ready then trigger rule device telemetry value else pure tt

  -- A rule in whose scope the device is: it fires on a matching value when its cooldown is over.
  unfoldable pub fire : Rule → Device → Telemetry → Action (Unit {0})
  unfolding trigger_if_ready
  fire rule device telemetry = elim (lookup rule.condition.property telemetry.values) [
    | none ↦ pure tt
    | some value ↦
        if matches_rule_condition env.sprint rule.condition.operator value rule.condition.value
        then trigger_if_ready rule device telemetry value
        else pure tt
  ]

  -- The loop over the rules.
  unfoldable pub evaluate_each :
      Device → Telemetry → Option (List String) → List Rule → Action (Unit {0})
  unfolding in_rule_scope cached_membership fire
  evaluate_each device telemetry cache [] = pure tt
  evaluate_each device telemetry cache (rule ∷ rest) =
      let next = λ (c : Option (List String)). evaluate_each device telemetry c rest in
      if not (in_rule_scope rule device)
      then next cache
      else if rule.group_id == ""
      then fire rule device telemetry >> next cache
      else cached_membership device cache >>= λ groups.
          (if contains rule.group_id groups then fire rule device telemetry else pure tt)
          >> next (some groups)

  unfoldable pub evaluate_rules : Device → Telemetry → Action (Unit {0})
  unfolding evaluate_each
  evaluate_rules device telemetry = do
    rules ← gets (λ s. list_rules s.store)
    evaluate_each device telemetry none rules
