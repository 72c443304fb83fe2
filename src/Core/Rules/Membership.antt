-- ===== src/Core/Rules/Membership.antt =====
-- The rules read the groups of the device once and reuse them: the same as reading them each time.
use getdata.Base.{
  String, ◌≡◌, refl, ◌∙◌, ap, Bool, true, ◌&&◌, ◌||◌, Option, none, some, List, [], ◌∷◌, ◌==◌,
  contains, ok, arith, if◌then◌else◌, Option-cases, inl, inr, Bool-cases, is_some,
}
use getdata.Base.Dict.{Dict, lookup}
use getdata.Model.{Device, Telemetry, Rule, RuleAction, Value}
use getdata.Store.{list_at}
use getdata.Store.Catalog.{list_rules}
use getdata.Store.Sorting.{sort_strings}
use getdata.Store.Groups.{list_group_ids_by_device, require}
use getdata.Store.Groups.Members.{contains-sort}
use getdata.Store.Groups.Invariant.{member}
use getdata.Store.Records.{save_alert, append_alert}
use getdata.Core.Sessions.{touch_device}
use getdata.Core.State.{Env, Service, ◌>>=◌, ◌>>◌, pure, gets}
use getdata.Core.State.NeverFails.{NeverFails, NeverFails-bind, NeverFails-pure, returns_rules}
use getdata.Core.Soundness.Stable.{IsStable}
use getdata.Core.Soundness.StableRules.{fire-Preserves}
use getdata.Core.Rules.{
  in_rule_scope, fire, trigger, trigger_if_ready, execute_rule_actions, execute_each,
  execute_action, cached_membership, read_membership, evaluate_each, evaluate_rules,
}

-- The rule is for the device: every scope that it sets is the device's, and its group, if it sets
-- one, has the device as a member.
abbrev pub applies : Rule → Device → Service → Bool
applies rule device s =
    in_rule_scope rule device && (rule.group_id == "" || member s.store rule.group_id device.id)

-- Rules in order: each that applies is fired on the state that the ones before it left.
abbrev pub fire_each : Env → Device → Telemetry → List Rule → Service → Service
fire_each env device telemetry [] s = s
fire_each env device telemetry (rule ∷ rest) s =
    fire_each env device telemetry rest
      (if applies rule device s then (fire env rule device telemetry s).1 else s)

-- The membership and the devices are the ones given.
record HasMembers (groups : Dict (List String)) (devices : Dict Device) (s : Service) : Type 0 where
  groups_same : s.store.group_ids_by_device ≡ groups
  devices_same : s.store.devices ≡ devices

HasMembers-IsStable :
    (groups : Dict (List String)) (devices : Dict Device) → IsStable (HasMembers groups devices)
unfolding save_alert touch_device append_alert
HasMembers-IsStable groups devices = record {
  same = λ s t e p. record {
    groups_same = ap (λ v. v.group_ids) e ∙ p.groups_same;
    devices_same = ap (λ v. v.devices) e ∙ p.devices_same;
  };
  touched = λ d at s p. record { groups_same = p.groups_same; devices_same = p.devices_same };
  resaved = λ a s t h p. record {
    groups_same = ground (arith, p.groups_same);
    devices_same = ground (arith, p.devices_same);
  };
  alerted = λ a s p. record { groups_same = p.groups_same; devices_same = p.devices_same };
}

module _ (env : Env) (rule : Rule) (device : Device) (telemetry : Telemetry) where
  execute_each-NeverFails :
      (value : Value) (actions : List RuleAction)
      → NeverFails (execute_each env rule device telemetry value actions)
  unfolding execute_each execute_action
  execute_each-NeverFails value [] = NeverFails-pure tt
  execute_each-NeverFails value (a ∷ rest) =
      NeverFails-bind _ _ (search returns_rules depth 12) (λ _. execute_each-NeverFails value rest)

  trigger-NeverFails :
      (value : Value) → NeverFails (trigger_if_ready env rule device telemetry value)
  unfolding trigger_if_ready trigger execute_rule_actions
  trigger-NeverFails value = search (returns_rules, execute_each-NeverFails) depth 12

  fire-NeverFails : NeverFails (fire env rule device telemetry)
  unfolding fire
  fire-NeverFails = elim (Option-cases (lookup rule.condition.property telemetry.values)) [
    | inl e ↦ rw (fire, e) (NeverFails-pure tt)
    | inr (value, e) ↦ rw (fire, e) (search (returns_rules, trigger-NeverFails))
  ]

  fire_ok : (s : Service) → (fire env rule device telemetry s).0 ≡ ok tt
  fire_ok s = (fire-NeverFails.returns s).1

-- The groups that were read for an earlier rule are the device's.
abbrev IsCache : Option (List String) → Device → Service → Type 0
IsCache none device s = Unit
IsCache (some ids) device s = (g : String) → contains g ids ≡ member s.store g device.id

module _ (env : Env) (device : Device) (telemetry : Telemetry) where
  -- Firing a rule keeps the device and its groups.
  still :
      (rule : Rule) (s : Service)
      → HasMembers s.store.group_ids_by_device s.store.devices (fire env rule device telemetry s).1
  still rule s =
      (fire-Preserves (HasMembers-IsStable s.store.group_ids_by_device s.store.devices) env rule
          device telemetry).holds
        s (record { groups_same = refl; devices_same = refl })

  still_known :
      (rule : Rule) (s : Service)
      → is_some (lookup device.id s.store.devices) ≡ true
      → is_some (lookup device.id (fire env rule device telemetry s).1.store.devices) ≡ true
  still_known rule s known = rw (still rule s).devices_same known

  still_cached :
      (rule : Rule) (cache : Option (List String)) (s : Service)
      → IsCache cache device s
      → IsCache cache device (fire env rule device telemetry s).1
  still_cached rule none s valid = tt
  still_cached rule (some ids) s valid = λ g. rw (still rule s).groups_same (valid g)

  -- What the lemma says of one list of rules, from every state.
  abbrev Agrees : List Rule → Type 0
  Agrees rules =
      (cache : Option (List String)) (s : Service)
      → is_some (lookup device.id s.store.devices) ≡ true
      → IsCache cache device s
      → evaluate_each env device telemetry cache rules s
        ≡ (ok tt, fire_each env device telemetry rules s)

  -- A rule with a group, after its groups are read.
  with_groups :
      (rule : Rule) (rest : List Rule) (ids : List String) (s : Service)
      → Agrees rest
      → is_some (lookup device.id s.store.devices) ≡ true
      → IsCache (some ids) device s
      → ((if contains rule.group_id ids then fire env rule device telemetry else pure tt)
            >> evaluate_each env device telemetry (some ids) rest)
          s
        ≡ (
          ok tt,
          fire_each env device telemetry rest (
              if member s.store rule.group_id device.id
              then (fire env rule device telemetry s).1
              else s),
        )
  unfolding ◌>>=◌ pure
  with_groups rule rest ids s agrees known valid = elim (Bool-cases (contains rule.group_id ids)) [
    | inl c ↦
        rw (c, ← valid rule.group_id, c, fire_ok env rule device telemetry s)
          (agrees (some ids) _ (still_known rule s known) (still_cached rule (some ids) s valid))
    | inr c ↦ rw (c, ← valid rule.group_id, c) (agrees (some ids) s known valid)
  ]

  grouped :
      (rule : Rule) (rest : List Rule) (cache : Option (List String)) (s : Service)
      → Agrees rest
      → is_some (lookup device.id s.store.devices) ≡ true
      → IsCache cache device s
      → (cached_membership env device cache >>= λ groups.
            (if contains rule.group_id groups then fire env rule device telemetry else pure tt)
            >> evaluate_each env device telemetry (some groups) rest)
          s
        ≡ (
          ok tt,
          fire_each env device telemetry rest (
              if member s.store rule.group_id device.id
              then (fire env rule device telemetry s).1
              else s),
        )
  unfolding ◌>>=◌ cached_membership read_membership gets pure list_group_ids_by_device require
  grouped rule rest (some ids) s agrees known valid = with_groups rule rest ids s agrees known valid
  grouped rule rest none s agrees known valid = rw known (
      with_groups rule rest (sort_strings (list_at device.id s.store.group_ids_by_device)) s agrees
        known (λ g. contains-sort g (list_at device.id s.store.group_ids_by_device)))

  evaluate_each-fire_each : (rules : List Rule) → Agrees rules
  unfolding evaluate_each ◌>>=◌ cached_membership read_membership gets pure list_group_ids_by_device
      require
  evaluate_each-fire_each [] cache s known valid = refl
  evaluate_each-fire_each (rule ∷ rest) cache s known valid =
      elim (Bool-cases (in_rule_scope rule device)) [
        | inr p ↦ rw p (evaluate_each-fire_each rest cache s known valid)
        | inl p ↦ elim (Bool-cases (rule.group_id == "")) [
          | inl q ↦
              rw (p, q, fire_ok env rule device telemetry s)
                (evaluate_each-fire_each rest cache _ (still_known rule s known)
                  (still_cached rule cache s valid))
          | inr q ↦ rw (p, q) (grouped rule rest cache s (evaluate_each-fire_each rest) known valid)
        ]
      ]

-- For a device of the store, the evaluation of the rules, which reads the device's groups at most
-- once, succeeds and leaves the state that firing every rule that applies leaves, where each rule's
-- group is looked up at its turn and the rules come in the order of their listing.
pub evaluate_rules-fire_each :
    (env : Env) (device : Device) (telemetry : Telemetry) (s : Service)
    → is_some (lookup device.id s.store.devices) ≡ true
    → evaluate_rules env device telemetry s
      ≡ (ok tt, fire_each env device telemetry (list_rules s.store) s)
unfolding evaluate_rules ◌>>=◌ gets
evaluate_rules-fire_each env device telemetry s known =
    evaluate_each-fire_each env device telemetry (list_rules s.store) none s known tt
