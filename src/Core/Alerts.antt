-- ===== src/Core/Alerts.antt =====
-- service.go: the list of alerts, and the states of an alert.
pub mod Filter
use getdata.Base.{
  ℕ, ◌-◌, String, Bool, ◌&&◌, ◌||◌, not, Option, none, some, List, [], ◌∷◌, ◌==◌, ltb,
  if◌then◌else◌, invalid_alert, leb,
}
use getdata.Base.Text.{trim_space}
use getdata.Base.Words.{ℤ, pos, is_pos, to_ℕ}
use getdata.Model.{Time, AlertEvent, AlertStatus}
use getdata.Store.Records.{get_alert, save_alert, list_alerts}
use getdata.Core.Normalize.{normalize_alert_status}
use getdata.Core.State.{Env, Action, ◌>>=◌, ◌>>◌, pure, fail, query, gets, update, read_clock}

-- How many alerts are read from the store before they are filtered.
unfoldable pub source_limit : ℤ → Bool → ℕ
source_limit limit filtered =
    let n = if is_pos limit then to_ℕ limit else 100 in if filtered && ltb n 200 then 200 else n

-- Every filter that is set must be the alert's.
unfoldable pub alert_matches : String → String → String → String → String → AlertEvent → Bool
alert_matches tenant_id product_id group_id device_id rule_id alert =
    (tenant_id == "" || alert.tenant_id == tenant_id)
    && (product_id == "" || alert.product_id == product_id)
    && (group_id == "" || alert.group_id == group_id)
    && (device_id == "" || alert.device_id == device_id)
    && (rule_id == "" || alert.rule_id == rule_id)

-- The loop stops when `limit` alerts are collected, if the limit is positive; `left` is how many
-- more it takes.
unfoldable pub collect_all : (AlertEvent → Bool) → List AlertEvent → List AlertEvent
collect_all test [] = []
collect_all test (a ∷ rest) =
    let others = collect_all test rest in if test a then a ∷ others else others

unfoldable pub collect_some : (AlertEvent → Bool) → ℕ → List AlertEvent → List AlertEvent
collect_some test left [] = []
collect_some test left (a ∷ rest) =
    let others = collect_some test (left - 1) rest in
    let same = collect_some test left rest in
    if test a then (if leb left 1 then a ∷ [] else a ∷ others) else same

unfoldable pub list_alerts_by_tenant :
    String → ℤ → String → String → String → String → Action (List AlertEvent)
unfolding source_limit alert_matches collect_all collect_some
list_alerts_by_tenant tenant_id limit product_id group_id device_id rule_id = do
  alerts ← gets (λ s.
      list_alerts
        (pos (
          source_limit limit (
            not (product_id == "")
            || not (group_id == "")
            || not (device_id == "")
            || not (rule_id == ""))))
        s.store)
  pure (
      let test =
        alert_matches tenant_id (trim_space product_id) (trim_space group_id) (trim_space device_id)
          (trim_space rule_id) in
      if is_pos limit then collect_some test (to_ℕ limit) alerts else collect_all test alerts)

-- The alert after a change of its status.
unfoldable pub with_status : AlertStatus → String → Time → AlertEvent → AlertEvent
with_status AlertStatus.new note now alert = record alert { status = AlertStatus.new; note = note }
with_status AlertStatus.acknowledged note now alert = record alert {
  status = AlertStatus.acknowledged;
  note = note;
  ack_at = some now;
}
with_status AlertStatus.resolved note now alert = record alert {
  status = AlertStatus.resolved;
  note = note;
  ack_at = elim alert.ack_at [ none ↦ some now | some t ↦ some t ];
  resolved_at = some now;
}

module _ (env : Env) where
  abbrev pub change_status : AlertEvent → String → Option AlertStatus → Action AlertEvent
  change_status alert note none = fail invalid_alert
  change_status alert note (some status) = do
    now ← read_clock env
    update (save_alert (with_status status (trim_space note) now alert))
    pure (with_status status (trim_space note) now alert)

  unfoldable pub update_alert : String → String → String → Action AlertEvent
  unfolding with_status
  update_alert alert_id status note = do
    alert ← query (get_alert (trim_space alert_id))
    change_status alert note (normalize_alert_status status)
