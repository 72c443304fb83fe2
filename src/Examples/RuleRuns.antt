-- ===== src/Examples/RuleRuns.antt =====
-- Rules: a report that two rules look at, a cooldown, and a list of alerts.
use getdata.Base.{◌≡◌, refl, true, [], ◌∷◌, ok, arith, leb, ◌+◌, ◌==◌}
use getdata.Base.Dict.{lookup}
use getdata.Base.Words.{pos}
use getdata.Model.{Rule, Telemetry}
use getdata.Model.Values.{int}
use getdata.Store.Catalog.{list_rules}
use getdata.Core.State.{Service}
use getdata.Core.Rules.{evaluate_rules, can_trigger_rule, record_rule_trigger}
use getdata.Core.Rules.Cooldown.{can_trigger-record}
use getdata.Core.Rules.Membership.{fire_each, evaluate_rules-fire_each}
use getdata.Core.Alerts.{collect_all, collect_some}
use getdata.Core.Alerts.Filter.{take, collect_some-collect_all}
use getdata.Examples.StoreRuns.{lamp, joined, alarms}
use getdata.Examples.ServiceRuns.{world, serving}

abbrev heat : Rule
heat = record {
  id = "rul_1";
  tenant_id = "";
  name = "heat";
  description = "";
  product_id = "";
  group_id = "grp_1";
  device_id = "";
  enabled = true;
  severity = "warning";
  cooldown_seconds = pos 0;
  condition = record { property = "t"; operator = "gt"; value = int (pos 50) };
  actions = [];
  created_at = 3;
  updated_at = 3;
}

abbrev ruled : Service
ruled = record serving { store = record joined { rules = ("rul_1", heat) ∷ [] } }

abbrev hot : Telemetry
hot = record { device_id = "dev_1"; timestamp = 9; values = ("t", int (pos 60)) ∷ [] }

evaluate_rules-fire_each_example :
    evaluate_rules world lamp hot ruled
    ≡ (ok tt, fire_each world lamp hot (list_rules ruled.store) ruled)
unfolding lookup
evaluate_rules-fire_each_example = evaluate_rules-fire_each world lamp hot ruled refl

can_trigger-record_example :
    can_trigger_rule "rul_1" "dev_1" (pos 60) 61000000005 (record_rule_trigger "rul_1" "dev_1" 5 [])
    ≡ leb (5 + 60000000000) 61000000005
can_trigger-record_example =
    can_trigger-record "rul_1" "dev_1" 60 5 61000000005 [] (omega arith) (omega arith) (omega arith)
      (omega arith)

collect_some-collect_all_example :
    collect_some (λ a. a.id == "alt_2") 1 alarms
    ≡ take 1 (collect_all (λ a. a.id == "alt_2") alarms)
collect_some-collect_all_example =
    collect_some-collect_all (λ a. a.id == "alt_2") 1 alarms (omega arith)
