-- ===== src/Examples/WordRuns.antt =====
-- Tests of the normalisers, the tenant slugs, the keys of rules and the operations.
use getdata.Base.{◌≡◌, refl, true, some, []}
use getdata.Base.Dict.{lookup, insert}
use getdata.Base.Text.{to_lower, trim_space}
use getdata.Base.Words.{pos, signed, le_ℤ}
use getdata.Model.{AlertStatus}
use getdata.Core.State.{rule_state_of}
use getdata.Core.Normalize.{
  normalize_severity, normalize_alert_status, normalize_protocol, normalize_rule_operator,
}
use getdata.Core.Provision.{normalize_tenant_slug}
use getdata.Core.Rules.{make_rule_state_key, sub_time, can_trigger_rule, record_rule_trigger}

make_rule_state_key_runs : make_rule_state_key "a" "b" ≡ "a\0b"
unfolding make_rule_state_key
make_rule_state_key_runs = refl

normalize_severity_runs : normalize_severity " FATAL " ≡ "critical"
unfolding normalize_severity to_lower trim_space
normalize_severity_runs = refl

normalize_alert_status_runs : normalize_alert_status "Done" ≡ some AlertStatus.resolved
unfolding normalize_alert_status to_lower trim_space
normalize_alert_status_runs = refl

normalize_protocol_runs : normalize_protocol "Modbus" ≡ "modbus_tcp"
unfolding normalize_protocol to_lower trim_space
normalize_protocol_runs = refl

normalize_rule_operator_runs : normalize_rule_operator " <> " ≡ "neq"
unfolding normalize_rule_operator to_lower trim_space
normalize_rule_operator_runs = refl

normalize_tenant_slug_runs : normalize_tenant_slug "" " My  Home! " ≡ "my-home"
unfolding normalize_tenant_slug to_lower trim_space
normalize_tenant_slug_runs = refl

normalize_tenant_slug_default_runs : normalize_tenant_slug "!" "" ≡ "tenant"
unfolding normalize_tenant_slug to_lower trim_space
normalize_tenant_slug_default_runs = refl

-- A cooldown of 9223372037 seconds is over one nanosecond after the rule has fired.
can_trigger_rule_wraps :
    can_trigger_rule "r" "d" (pos 9223372037) 6 (record_rule_trigger "r" "d" 5 []) ≡ true
unfolding can_trigger_rule record_rule_trigger rule_state_of make_rule_state_key sub_time signed
    le_ℤ lookup insert
can_trigger_rule_wraps = refl
