-- ===== src/Core/Soundness/Tables.antt =====
-- The writes to the tables of groups and devices and to the membership keep the service sound.
use getdata.Base.{ℕ, String, ◌≡◌, refl, true, List, ok, arith, is_some}
use getdata.Base.Dict.{Dict, lookup, insert, lookup-insert}
use getdata.Model.{Device, DeviceGroup, Telemetry, AlertEvent}
use getdata.Store.{Store}
use getdata.Store.Clone.{clone_device, clone_group}
use getdata.Store.Catalog.{create_group, create_device, save_device}
use getdata.Store.Groups.{add_device_to_group, remove_device_from_group, require}
use getdata.Store.Groups.Invariant.{IsMirrored, add-IsMirrored, remove-IsMirrored}
use getdata.Core.State.{Service}
use getdata.Core.Soundness.{IsSound}

-- What is bounded, and the bounds.
record Bounded : Type 0 where
  telemetry : Dict (List Telemetry)
  alerts : List AlertEvent
  telemetry_retention : ℕ
  alert_retention : ℕ

abbrev bounded : Store → Bounded
bounded s = record {
  telemetry = s.telemetry_by_device;
  alerts = s.alerts;
  telemetry_retention = s.telemetry_retention;
  alert_retention = s.alert_retention;
}

-- A store with the same telemetry and alerts whose membership is mirrored.
remember :
    (s : Service) (t : Store)
    → bounded t ≡ bounded s.store
    → IsMirrored t
    → IsSound s
    → IsSound (record s { store = t })
remember s t e m p = record {
  counted = record { counted = p.counted.counted };
  mirrored = m;
  telemetry_bounded = λ d. ground (arith, e, p.telemetry_bounded d);
  alerts_bounded = ground (arith, e, p.alerts_bounded);
}

bounded-add_device_to_group :
    (group_id device_id : String) (s t : Store)
    → add_device_to_group group_id device_id s ≡ ok t
    → bounded t ≡ bounded s
unfolding add_device_to_group require
bounded-add_device_to_group group_id device_id s t h = ground arith

pub add_device_to_group-IsSound :
    (group_id device_id : String) (s : Service) (t : Store)
    → add_device_to_group group_id device_id s.store ≡ ok t
    → IsSound s
    → IsSound (record s { store = t })
add_device_to_group-IsSound group_id device_id s t h p =
    remember s t (bounded-add_device_to_group group_id device_id s.store t h)
      (add-IsMirrored group_id device_id s.store t p.mirrored h) p

bounded-remove_device_from_group :
    (group_id device_id : String) (s t : Store)
    → remove_device_from_group group_id device_id s ≡ ok t
    → bounded t ≡ bounded s
unfolding remove_device_from_group require
bounded-remove_device_from_group group_id device_id s t h = ground arith

pub remove_device_from_group-IsSound :
    (group_id device_id : String) (s : Service) (t : Store)
    → remove_device_from_group group_id device_id s.store ≡ ok t
    → IsSound s
    → IsSound (record s { store = t })
remove_device_from_group-IsSound group_id device_id s t h p =
    remember s t (bounded-remove_device_from_group group_id device_id s.store t h)
      (remove-IsMirrored group_id device_id s.store t p.mirrored h) p

-- More groups and devices than before.
IsMirrored-grow :
    (s : Store) (groups : Dict DeviceGroup) (devices : Dict Device)
    → ((g : String) → is_some (lookup g s.groups) ≡ true → is_some (lookup g groups) ≡ true)
    → ((d : String) → is_some (lookup d s.devices) ≡ true → is_some (lookup d devices) ≡ true)
    → IsMirrored s
    → IsMirrored (record s { groups = groups; devices = devices })
IsMirrored-grow s groups devices more_groups more_devices v = record {
  mirrored = v.mirrored;
  groups_distinct = v.groups_distinct;
  devices_distinct = v.devices_distinct;
  known_group = λ g d m. more_groups g (v.known_group g d m);
  known_device = λ g d m. more_devices d (v.known_device g d m);
}

insert_grows :
    {V : Type 0} (k : String) (v : V) (m : Dict V) (j : String)
    → is_some (lookup j m) ≡ true
    → is_some (lookup j (insert k v m)) ≡ true
insert_grows k v m j h = ground (arith, lookup-insert j k v m)

pub create_group-IsSound :
    (g : DeviceGroup) (s : Service) (t : Store)
    → create_group g s.store ≡ ok t
    → IsSound s
    → IsSound (record s { store = t })
unfolding create_group
create_group-IsSound g s t h p =
    let groups : Dict DeviceGroup = insert g.id (clone_group g) s.store.groups in
    let e : t ≡ record s.store { groups = groups } = ground arith in
    rw e (
      remember s (record s.store { groups = groups }) refl
        (IsMirrored-grow s.store groups s.store.devices
          (insert_grows g.id (clone_group g) s.store.groups) (λ d k. k) p.mirrored)
        p)

grow_devices :
    (x : Device) (s : Service)
    → IsSound s
    → IsSound (record s {
      store = record s.store { devices = insert x.id (clone_device x) s.store.devices };
    })
grow_devices x s p =
    remember s (record s.store { devices = insert x.id (clone_device x) s.store.devices }) refl
      (IsMirrored-grow s.store s.store.groups _ (λ g k. k)
        (insert_grows x.id (clone_device x) s.store.devices) p.mirrored)
      p

pub create_device-IsSound :
    (x : Device) (s : Service) (t : Store)
    → create_device x s.store ≡ ok t
    → IsSound s
    → IsSound (record s { store = t })
unfolding create_device
create_device-IsSound x s t h p =
    let e : t ≡ record s.store { devices = insert x.id (clone_device x) s.store.devices } =
      ground arith in
    rw e (grow_devices x s p)

pub save_device-IsSound :
    (x : Device) (s : Service) (t : Store)
    → save_device x s.store ≡ ok t
    → IsSound s
    → IsSound (record s { store = t })
unfolding save_device
save_device-IsSound x s t h p =
    let e : t ≡ record s.store { devices = insert x.id (clone_device x) s.store.devices } =
      ground arith in
    rw e (grow_devices x s p)
