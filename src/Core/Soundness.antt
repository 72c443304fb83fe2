-- ===== src/Core/Soundness.antt =====
-- What holds of the service between any two operations, and the changes that cannot break it.
pub mod Stable
pub mod StableRules
pub mod Writes
pub mod Tables
pub mod Operations
pub mod Creation
pub mod Counters
use getdata.Base.{ℕ, ◌≤◌, String, ◌≡◌, refl, subst⁻¹, List, arith, length, Bool}
use getdata.Base.Dict.{Dict}
use getdata.Model.{Device, DeviceGroup, Telemetry, AlertEvent}
use getdata.Store.{Store, list_at}
use getdata.Store.Groups.Invariant.{IsMirrored}
use getdata.Core.State.{DeviceState, Service}
use getdata.Core.Sessions.Online.{IsCounted}

-- The gauge counts the sessions, the two membership maps agree, and no list of telemetry and not the
-- list of alerts is longer than its retention.
pub record IsSound (s : Service) : Type 0 where
  pub counted : IsCounted s
  pub mirrored : IsMirrored s.store
  pub telemetry_bounded :
      (d : String) → length (list_at d s.store.telemetry_by_device) ≤ s.store.telemetry_retention
  pub alerts_bounded : length s.store.alerts ≤ s.store.alert_retention

-- The part of the state that soundness speaks of.
pub record Vital : Type 0 where
  pub online : ℕ
  pub states : Dict DeviceState
  pub groups : Dict DeviceGroup
  pub devices : Dict Device
  pub group_ids : Dict (List String)
  pub device_ids : Dict (List String)
  pub telemetry : Dict (List Telemetry)
  pub alerts : List AlertEvent
  pub telemetry_retention : ℕ
  pub alert_retention : ℕ

abbrev pub vital : Service → Vital
vital s = record {
  online = s.counters.online_devices;
  states = s.states;
  groups = s.store.groups;
  devices = s.store.devices;
  group_ids = s.store.group_ids_by_device;
  device_ids = s.store.device_ids_by_group;
  telemetry = s.store.telemetry_by_device;
  alerts = s.store.alerts;
  telemetry_retention = s.store.telemetry_retention;
  alert_retention = s.store.alert_retention;
}

abbrev from_vital : Vital → Service → Service
from_vital v s = record s {
  states = v.states;
  counters = record s.counters { online_devices = v.online };
  store = record s.store {
    groups = v.groups;
    devices = v.devices;
    group_ids_by_device = v.group_ids;
    device_ids_by_group = v.device_ids;
    telemetry_by_device = v.telemetry;
    alerts = v.alerts;
    telemetry_retention = v.telemetry_retention;
    alert_retention = v.alert_retention;
  };
}

pub IsSound-vital : (s t : Service) → vital t ≡ vital s → IsSound s → IsSound t
IsSound-vital s t e p = subst⁻¹ (λ v. IsSound (from_vital v t)) e rebuilt
  where
    rebuilt : IsSound (from_vital (vital s) t)
    rebuilt = record {
      counted = record { counted = p.counted.counted };
      mirrored = record {
        mirrored = p.mirrored.mirrored;
        groups_distinct = p.mirrored.groups_distinct;
        devices_distinct = p.mirrored.devices_distinct;
        known_group = p.mirrored.known_group;
        known_device = p.mirrored.known_device;
      };
      telemetry_bounded = p.telemetry_bounded;
      alerts_bounded = p.alerts_bounded;
    }
