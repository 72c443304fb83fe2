-- ===== src/Core/Soundness/Writes.antt =====
-- The writes that do change what soundness speaks of, one by one.
use getdata.Base.{
  ℕ, ◌-◌, ◌≤◌, String, ◌≡◌, refl, List, [], ◌∷◌, ◌++◌, length, length-drop, some, ok, arith, inl,
  inr, Option-cases,
}
use getdata.Base.Dict.{Dict, insert}
use getdata.Model.{Time, Telemetry, AlertEvent}
use getdata.Store.{Store, list_at, list_at-insert}
use getdata.Store.Clone.{clone_telemetry, clone_alert}
use getdata.Store.Records.{cut, append_telemetry, append_alert, replace_alert, save_alert}
use getdata.Core.State.{Service, Session}
use getdata.Core.Sessions.{register_at, unregister_at, touch_device}
use getdata.Core.Sessions.Online.{
  IsCounted, register-IsCounted, unregister-IsCounted, touch-IsCounted,
}
use getdata.Core.Soundness.{IsSound, IsSound-vital}
use getdata.Core.Soundness.Stable.{IsStable}

length-cut-le : {A : Type 0} (n : ℕ) (xs : List A) → length (cut n xs) ≤ n
unfolding cut
length-cut-le n xs = ground (arith, length-drop (length xs - n) xs)

-- The store is left as it is, and the gauge counts.
recount : (s t : Service) → t.store ≡ s.store → IsCounted t → IsSound s → IsSound t
recount s t e c p = record {
  counted = c;
  mirrored = rw e p.mirrored;
  telemetry_bounded = rw e p.telemetry_bounded;
  alerts_bounded = rw e p.alerts_bounded;
}

pub register-IsSound :
    (now : Time) (device_id : String) (session : Session) (s : Service)
    → IsSound s
    → IsSound (register_at now device_id session s)
unfolding register_at
register-IsSound now device_id session s p =
    recount s _ refl (register-IsCounted now device_id session s p.counted) p

store-unregister :
    (now : Time) (device_id session_id : String) (s : Service)
    → (unregister_at now device_id session_id s).store ≡ s.store
unfolding unregister_at
store-unregister now device_id session_id s = ground arith

pub unregister-IsSound :
    (now : Time) (device_id session_id : String) (s : Service)
    → IsSound s
    → IsSound (unregister_at now device_id session_id s)
unregister-IsSound now device_id session_id s p =
    recount s _ (store-unregister now device_id session_id s)
      (unregister-IsCounted now device_id session_id s p.counted) p

touch-IsSound :
    (device_id : String) (at : Time) (s : Service)
    → IsSound s
    → IsSound (touch_device device_id at s)
unfolding touch_device
touch-IsSound device_id at s p = recount s _ refl (touch-IsCounted device_id at s p.counted) p

-- The membership and the sessions are left as they are, and the lists stay within their bounds.
rebound :
    (s : Service) (telemetry : Dict (List Telemetry)) (alerts : List AlertEvent)
    → ((d : String) → length (list_at d telemetry) ≤ s.store.telemetry_retention)
    → length alerts ≤ s.store.alert_retention
    → IsSound s
    → IsSound
        (record s { store = record s.store { telemetry_by_device = telemetry; alerts = alerts } })
rebound s telemetry alerts short few p = record {
  counted = record { counted = p.counted.counted };
  mirrored = record {
    mirrored = p.mirrored.mirrored;
    groups_distinct = p.mirrored.groups_distinct;
    devices_distinct = p.mirrored.devices_distinct;
    known_group = p.mirrored.known_group;
    known_device = p.mirrored.known_device;
  };
  telemetry_bounded = short;
  alerts_bounded = few;
}

append_alert-IsSound :
    (a : AlertEvent) (s : Service)
    → IsSound s
    → IsSound (record s { store = append_alert a s.store })
unfolding append_alert
append_alert-IsSound a s p =
    rebound s s.store.telemetry_by_device _ p.telemetry_bounded
      (length-cut-le s.store.alert_retention (s.store.alerts ++ (clone_alert a ∷ []))) p

pub append_telemetry-IsSound :
    (x : Telemetry) (s : Service)
    → IsSound s
    → IsSound (record s { store = append_telemetry x s.store })
unfolding append_telemetry
append_telemetry-IsSound x s p = rebound s _ s.store.alerts short p.alerts_bounded p
  where
    items : List Telemetry
    items = list_at x.device_id s.store.telemetry_by_device ++ (clone_telemetry x ∷ [])

    short :
        (d : String)
        → length (
            list_at d (
              insert x.device_id
                (cut s.store.telemetry_retention items)
                s.store.telemetry_by_device))
          ≤ s.store.telemetry_retention
    short d = ground (
      arith,
      list_at-insert d x.device_id (cut s.store.telemetry_retention items)
          s.store.telemetry_by_device,
      length-cut-le s.store.telemetry_retention items,
      p.telemetry_bounded d,
    )

length-replace :
    (a : AlertEvent) (xs ys : List AlertEvent)
    → replace_alert a xs ≡ some ys
    → length ys ≡ length xs
unfolding replace_alert
length-replace a [] ys h = ground arith
length-replace a (x ∷ xs) ys h = elim (Option-cases (replace_alert a xs)) [
  | inl e ↦ ground (arith, e)
  | inr (zs, e) ↦ ground (arith, e, length-replace a xs zs e)
]

save_alert-IsSound :
    (a : AlertEvent) (s : Service) (t : Store)
    → save_alert a s.store ≡ ok t
    → IsSound s
    → IsSound (record s { store = t })
unfolding save_alert
save_alert-IsSound a s t h p = elim (Option-cases (replace_alert a s.store.alerts)) [
  | inl e ↦ absurd (ground (arith, e))
  | inr (ys, e) ↦
      let u : t ≡ record s.store { alerts = ys } = ground (arith, e) in
      rw u (
        rebound s s.store.telemetry_by_device ys p.telemetry_bounded
          (omega (arith, length-replace a s.store.alerts ys e, p.alerts_bounded)) p)
]

pub IsSound-IsStable : IsStable IsSound
IsSound-IsStable = record {
  same = IsSound-vital;
  touched = touch-IsSound;
  resaved = save_alert-IsSound;
  alerted = append_alert-IsSound;
}
