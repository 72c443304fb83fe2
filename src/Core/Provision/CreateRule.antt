-- ===== src/Core/Provision/CreateRule.antt =====
-- CreateRuleWithTenant: the scope of a rule is completed from its group and its device.
use getdata.Base.{String, Bool, true, false, ◌&&◌, List, ◌==◌, if◌then◌else◌, invalid_rule}
use getdata.Base.Text.{trim_space}
use getdata.Base.Words.{ℤ, pos, negsuc}
use getdata.Model.{Rule, RuleCondition, RuleAction}
use getdata.Store.Catalog.{get_group, get_device, create_rule}
use getdata.Core.Normalize.{normalize_severity}
use getdata.Core.State.{
  Env, Action, ◌>>=◌, ◌>>◌, pure, fail, lift, query, gets, update, read_clock, new_id,
}
use getdata.Core.Shadows.{load_product}
use getdata.Core.Provision.{need, same_tenant, product_tenant, assert_tenant_exists}
use getdata.Core.Provision.Rules.{normalize_rule_condition, normalize_rule_actions}

-- The tenant and the product of a rule.
abbrev pub Scope : Type 0
Scope = String × String

abbrev pub same_product : String → String → Action String
same_product product_id owner =
    if owner == "" then pure product_id else same_tenant product_id owner invalid_rule

abbrev pub joined : Scope → String → String → Action Scope
joined (tenant_id, product_id) owner_tenant owner_product = do
  tenant ← same_tenant tenant_id owner_tenant invalid_rule
  product ← same_product product_id owner_product
  pure (tenant, product)

unfoldable pub group_scope : String → Scope → Action Scope
group_scope group_id scope =
    if group_id == ""
    then pure scope
    else query (get_group group_id) >>= λ group. joined scope group.tenant_id group.product_id

unfoldable pub device_scope : String → Scope → Action Scope
device_scope device_id scope =
    if device_id == ""
    then pure scope
    else query (get_device device_id) >>= λ device. joined scope device.tenant_id device.product_id

abbrev pub is_negative : ℤ → Bool
is_negative (pos _) = false
is_negative (negsuc _) = true

module _ (env : Env) where
  unfoldable pub add_rule :
      String
      → String
      → String
      → String
      → String
      → String
      → Bool
      → String
      → ℤ
      → RuleCondition
      → List RuleAction
      → Action Rule
  unfolding group_scope device_scope assert_tenant_exists normalize_rule_condition
      normalize_rule_actions
  add_rule tenant_id name description product_id group_id device_id enabled severity
        cooldown_seconds condition actions =
      do
        need (trim_space name) invalid_rule
        if trim_space product_id == "" && trim_space group_id == "" && trim_space device_id == ""
            then fail invalid_rule
            else pure tt
        if is_negative cooldown_seconds then fail invalid_rule else pure tt
        assert_tenant_exists (trim_space tenant_id)
        from_group ← group_scope (trim_space group_id) (trim_space tenant_id, trim_space product_id)
        from_device ← device_scope (trim_space device_id) from_group
        product ← gets (λ s. load_product from_device.1 s.store)
        tenant ← product_tenant from_device.0 product invalid_rule
        normal_condition ← lift (normalize_rule_condition product condition)
        normal_actions ← query (normalize_rule_actions tenant product severity actions)
        now ← read_clock env
        id ← new_id env "rul"
        let rule : Rule = record {
          id = id;
          tenant_id = tenant;
          name = trim_space name;
          description = trim_space description;
          product_id = from_device.1;
          group_id = trim_space group_id;
          device_id = trim_space device_id;
          enabled = enabled;
          severity = normalize_severity severity;
          cooldown_seconds = cooldown_seconds;
          condition = normal_condition;
          actions = normal_actions;
          created_at = now;
          updated_at = now;
        }
        update (create_rule rule)
        pure rule
