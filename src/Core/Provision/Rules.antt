-- ===== src/Core/Provision/Rules.antt =====
-- CreateRuleWithTenant, with the normalisation of its condition and its actions.
use getdata.Base.{
  String, ◌||◌, ◌&&◌, not, Option, none, some, List, [], ◌∷◌, ◌==◌, if◌then◌else◌, Result, ok, err,
  ◌>>=◌, ◌>>◌, invalid_rule,
}
use getdata.Base.Text.{trim_space}
use getdata.Model.{Product, RuleCondition, RuleAction, ConfigProfile, ThingModelProperty}
use getdata.Store.{Store}
use getdata.Store.Clone.{clone_any_map}
use getdata.Store.Catalog.{get_config_profile}
use getdata.Core.Values.{matches_thing_data_type, is_number}
use getdata.Core.Values.Validate.{validate_command_name}
use getdata.Core.Normalize.{
  normalize_rule_operator, is_numeric_rule_operator, normalize_severity, normalize_rule_action_type,
}

-- The first property of an identifier.
unfoldable pub first_property : String → List ThingModelProperty → Option ThingModelProperty
first_property name [] = none
first_property name (p ∷ rest) = if p.identifier == name then some p else first_property name rest

-- The checks of a condition against the product.
unfoldable pub check_condition : RuleCondition → Product → Result (Unit {0})
unfolding first_property matches_thing_data_type is_number is_numeric_rule_operator
check_condition c product = elim (first_property c.property product.thing_model.properties) [
  | none ↦ err invalid_rule
  | some property ↦
      if not (matches_thing_data_type property.data_type c.value)
      then err invalid_rule
      else if is_numeric_rule_operator c.operator && not (is_number c.value)
      then err invalid_rule
      else ok tt
]

abbrev with_product : Option Product → (Product → Result (Unit {0})) → Result (Unit {0})
with_product none check = ok tt
with_product (some product) check = check product

unfoldable pub normalize_rule_condition : Option Product → RuleCondition → Result RuleCondition
unfolding check_condition normalize_rule_operator
normalize_rule_condition product condition =
    let c = record condition {
      property = trim_space condition.property;
      operator = normalize_rule_operator condition.operator;
    } in
    if c.property == "" || c.operator == ""
    then err invalid_rule
    else with_product product (check_condition c) >> ok c

-- A text that may not be empty.
abbrev named : String → Result (Unit {0})
named text = if text == "" then err invalid_rule else ok tt

-- What must hold of a config profile that an action applies.
abbrev profile_fits : String → Option Product → ConfigProfile → Result (Unit {0})
profile_fits tenant_id product profile =
    if not (tenant_id == "") && not (profile.tenant_id == tenant_id)
    then err invalid_rule
    else with_product product λ p.
      if not (profile.product_id == "") && not (profile.product_id == p.id)
      then err invalid_rule
      else ok tt

unfoldable pub check_action : String → Option Product → RuleAction → Store → Result (Unit {0})
unfolding validate_command_name get_config_profile
check_action tenant_id product item s =
    if item.type == "send_command"
    then named item.name >> with_product product (λ p. validate_command_name p item.name)
    else if item.type == "apply_config_profile"
    then named item.config_profile_id
      >> (get_config_profile item.config_profile_id s >>= profile_fits tenant_id product)
    else ok tt

-- The severity of an action is never empty after normalisation, so the default that the source keeps
-- for that case is not used.
unfoldable pub normalize_action : RuleAction → RuleAction
unfolding normalize_rule_action_type normalize_severity
normalize_action action = record {
  type = normalize_rule_action_type action.type;
  name = trim_space action.name;
  params = clone_any_map action.params;
  config_profile_id = trim_space action.config_profile_id;
  severity = normalize_severity action.severity;
  message = trim_space action.message;
}

unfoldable pub normalize_each_action :
    String → Option Product → List RuleAction → Store → Result (List RuleAction)
unfolding normalize_action check_action
normalize_each_action tenant_id product [] s = ok []
normalize_each_action tenant_id product (a ∷ rest) s =
    let item = normalize_action a in
    let others = normalize_each_action tenant_id product rest s in
    if item.type == ""
    then err invalid_rule
    else check_action tenant_id product item s >> (others >>= λ items. ok (item ∷ items))

abbrev alert_action : String → RuleAction
alert_action severity = record {
  type = "alert";
  name = "";
  params = [];
  config_profile_id = "";
  severity = normalize_severity severity;
  message = "";
}

unfoldable pub normalize_rule_actions :
    String → Option Product → String → List RuleAction → Store → Result (List RuleAction)
unfolding normalize_each_action
normalize_rule_actions tenant_id product severity [] s = ok (alert_action severity ∷ [])
normalize_rule_actions tenant_id product severity (a ∷ rest) s =
    normalize_each_action tenant_id product (a ∷ rest) s
