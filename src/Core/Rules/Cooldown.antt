-- ===== src/Core/Rules/Cooldown.antt =====
-- The cooldown of a rule.
use getdata.Base.{ℕ, ◌+◌, ◌*◌, ◌≤◌, ◌<◌, String, ◌≡◌, arith, leb, eq_iff}
use getdata.Base.Dict.{Dict, lookup-insert}
use getdata.Base.Words.{pos, inc64, max_int, signed, le_ℤ}
use getdata.Model.{Time}
use getdata.Core.State.{RuleRuntimeState, rule_state_of}
use getdata.Core.Rules.{make_rule_state_key, sub_time, can_trigger_rule, record_rule_trigger}

last_triggered-record :
    (rule_id device_id : String) (at : Time) (states : Dict RuleRuntimeState)
    → (rule_state_of
        (make_rule_state_key rule_id device_id)
        (record_rule_trigger rule_id device_id at states)).last_triggered_at
      ≡ at
unfolding record_rule_trigger rule_state_of
last_triggered-record rule_id device_id at states =
    let key = make_rule_state_key rule_id device_id in
    let old = rule_state_of key states in
    ground (
      arith,
      lookup-insert key key
          (record old { triggered_count = inc64 old.triggered_count; last_triggered_at = at })
          states,
      eq_iff key key,
    )

ready_iff :
    (seconds : ℕ) (fired at : Time)
    → seconds * 1000000000 ≤ max_int
    → at ≤ fired + max_int
    → 0 < seconds
    → le_ℤ (signed (seconds * 1000000000)) (sub_time at fired)
      ≡ leb (fired + seconds * 1000000000) at
unfolding le_ℤ signed sub_time
ready_iff seconds fired at fits near positive = ground arith

-- Once a rule has fired for a device, it is ready again for that device exactly when its cooldown has
-- passed, for a positive cooldown that fits in a 64-bit number of nanoseconds, and reports within
-- 2 ^ 63 nanoseconds.
pub can_trigger-record :
    (rule_id device_id : String) (seconds : ℕ) (fired at : Time) (states : Dict RuleRuntimeState)
    → 0 < fired
    → 0 < seconds
    → seconds * 1000000000 ≤ max_int
    → at ≤ fired + max_int
    → can_trigger_rule rule_id device_id
        (pos seconds)
        at
        (record_rule_trigger rule_id device_id fired states)
      ≡ leb (fired + seconds * 1000000000) at
unfolding can_trigger_rule
can_trigger-record rule_id device_id seconds fired at states positive some_time fits near =
    rw
      (
        last_triggered-record rule_id device_id fired states,
        ready_iff seconds fired at fits near some_time,
      )
      (ground arith)
