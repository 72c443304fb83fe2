-- ===== src/Core/Soundness/Operations.antt =====
-- Every operation of the service keeps it sound, whether it succeeds or fails.
use getdata.Base.{String, refl, Option, Result, Error}
use getdata.Base.Dict.{Dict}
use getdata.Model.{Time, Value, Device, DeviceShadow, Telemetry, Product}
use getdata.Store.Catalog.{save_device}
use getdata.Store.Groups.{add_device_to_group, remove_device_from_group}
use getdata.Store.Records.{append_telemetry, save_shadow}
use getdata.Core.State.{Env, Session, modify, write, update, read_clock, new_id, new_token}
use getdata.Core.State.Preserves.{
  Preserves, Preserves-bind, Preserves-modify, Preserves-write, Preserves-update, preserve_rules,
}
use getdata.Core.Sessions.{register_session, unregister_session, touch_device}
use getdata.Core.Shadows.{in_scope, when_product, ensure_shadow, get_device_shadow}
use getdata.Core.Rules.{evaluate_rules}
use getdata.Core.Telemetry.{count_telemetry, handle_telemetry}
use getdata.Core.Members.{assign_device_to_group, unassign_device_from_group, update_device_tags}
use getdata.Core.Soundness.{IsSound}
use getdata.Core.Soundness.Writes.{
  register-IsSound, unregister-IsSound, append_telemetry-IsSound, IsSound-IsStable,
}
use getdata.Core.Soundness.Tables.{
  add_device_to_group-IsSound, remove_device_from_group-IsSound, save_device-IsSound,
}
use getdata.Core.Soundness.Stable.{
  read_clock-Preserves, new_id-Preserves, touch-Preserves, save_shadow-Preserves,
  when_product-Preserves, in_scope-Preserves, ensure_shadow-Preserves,
}
use getdata.Core.Soundness.StableRules.{evaluate_rules-Preserves}

module _ (env : Env) where
  pub clock-IsSound : Preserves IsSound (read_clock env)
  clock-IsSound = read_clock-Preserves IsSound-IsStable env

  pub new_id-IsSound : (prefix : String) → Preserves IsSound (new_id env prefix)
  new_id-IsSound = new_id-Preserves IsSound-IsStable env

  pub new_token-IsSound : Preserves IsSound (new_token env)
  unfolding new_token
  new_token-IsSound = record { holds = λ s p. IsSound-IsStable.same s _ refl p }

  pub touch-IsSound : (d : String) (at : Time) → Preserves IsSound (modify (touch_device d at))
  touch-IsSound = touch-Preserves IsSound-IsStable env

  pub save_shadow-IsSound : (x : DeviceShadow) → Preserves IsSound (write (save_shadow x))
  save_shadow-IsSound = save_shadow-Preserves IsSound-IsStable env

  pub when_product-IsSound :
      (product : Option Product) (check : Product → Result (Unit {0}))
      → Preserves IsSound (when_product product check)
  when_product-IsSound = when_product-Preserves IsSound-IsStable env

  in_scope-IsSound :
      (scope actual : String) (e : Error) → Preserves IsSound (in_scope scope actual e)
  in_scope-IsSound = in_scope-Preserves IsSound-IsStable env

  pub ensure_shadow-IsSound : (device : Device) → Preserves IsSound (ensure_shadow env device)
  ensure_shadow-IsSound = ensure_shadow-Preserves IsSound-IsStable env

  pub shadow-IsSound : (device_id : String) → Preserves IsSound (get_device_shadow env device_id)
  unfolding get_device_shadow
  shadow-IsSound device_id = search (preserve_rules, ensure_shadow-IsSound) depth 16

  evaluate_rules-IsSound :
      (device : Device) (telemetry : Telemetry)
      → Preserves IsSound (evaluate_rules env device telemetry)
  evaluate_rules-IsSound = evaluate_rules-Preserves IsSound-IsStable env

  ruleset sound_rules = (
    clock-IsSound, new_id-IsSound, new_token-IsSound, touch-IsSound, save_shadow-IsSound,
    when_product-IsSound, in_scope-IsSound, ensure_shadow-IsSound, evaluate_rules-IsSound,
  )

  pub register_session-IsSound :
      (device_id : String) (session : Session)
      → Preserves IsSound (register_session env device_id session)
  unfolding register_session
  register_session-IsSound device_id session =
      Preserves-bind _ _ clock-IsSound
        λ now. Preserves-modify _ (register-IsSound now device_id session)

  pub unregister_session-IsSound :
      (device_id session_id : String)
      → Preserves IsSound (unregister_session env device_id session_id)
  unfolding unregister_session
  unregister_session-IsSound device_id session_id =
      Preserves-bind _ _ clock-IsSound
        λ now. Preserves-modify _ (unregister-IsSound now device_id session_id)

  append-IsSound : (x : Telemetry) → Preserves IsSound (write (append_telemetry x))
  append-IsSound x = Preserves-write _ (append_telemetry-IsSound x)

  count_telemetry-IsSound : Preserves IsSound (modify count_telemetry)
  count_telemetry-IsSound = Preserves-modify _ (λ s p. IsSound-IsStable.same s _ refl p)

  pub handle_telemetry-IsSound :
      (device_id : String) (at : Time) (values : Dict Value)
      → Preserves IsSound (handle_telemetry env device_id at values)
  unfolding handle_telemetry
  handle_telemetry-IsSound device_id at values =
      search (preserve_rules, sound_rules, append-IsSound, count_telemetry-IsSound) depth 24

  join-IsSound : (g d : String) → Preserves IsSound (update (add_device_to_group g d))
  join-IsSound g d = Preserves-update _ (add_device_to_group-IsSound g d)

  part-IsSound : (g d : String) → Preserves IsSound (update (remove_device_from_group g d))
  part-IsSound g d = Preserves-update _ (remove_device_from_group-IsSound g d)

  save_device-keeps : (x : Device) → Preserves IsSound (update (save_device x))
  save_device-keeps x = Preserves-update _ (save_device-IsSound x)

  pub assign_device_to_group-IsSound :
      (group_id device_id : String) → Preserves IsSound (assign_device_to_group group_id device_id)
  unfolding assign_device_to_group
  assign_device_to_group-IsSound group_id device_id =
      search (preserve_rules, in_scope-IsSound, join-IsSound) depth 16

  pub unassign_device_from_group-IsSound :
      (group_id device_id : String)
      → Preserves IsSound (unassign_device_from_group group_id device_id)
  unfolding unassign_device_from_group
  unassign_device_from_group-IsSound group_id device_id =
      search (preserve_rules, part-IsSound) depth 16

  pub update_device_tags-IsSound :
      (device_id : String) (tags : Dict String)
      → Preserves IsSound (update_device_tags device_id tags)
  unfolding update_device_tags
  update_device_tags-IsSound device_id tags = search (preserve_rules, save_device-keeps) depth 16
