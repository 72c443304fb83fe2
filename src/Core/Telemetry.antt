-- ===== src/Core/Telemetry.antt =====
-- service.go: HandleTelemetry, and the reads of telemetry and commands.
use getdata.Base.{String, some, List, nat_eq, if◌then◌else◌}
use getdata.Base.Dict.{Dict}
use getdata.Base.Words.{ℤ, inc64}
use getdata.Model.{Time, Value, Telemetry, Device, DeviceShadow, Command}
use getdata.Store.Clone.{clone_any_map}
use getdata.Store.Catalog.{get_device}
use getdata.Store.Records.{
  append_telemetry, save_shadow, list_telemetry_by_device, list_commands_by_device,
}
use getdata.Core.Values.Validate.{validate_thing_values}
use getdata.Core.State.{
  Env, Service, Action, ◌>>=◌, ◌>>◌, pure, query, gets, modify, write, read_clock,
}
use getdata.Core.Sessions.{touch_device}
use getdata.Core.Shadows.{load_product, when_product, ensure_shadow, report}
use getdata.Core.Rules.{evaluate_rules}

-- The shadow after a report of these values at this time.
abbrev pub reported_shadow : (Value → String) → Dict Value → Time → DeviceShadow → DeviceShadow
reported_shadow sprint values at shadow =
    let merged = report sprint values shadow in
    record merged { version = inc64 merged.version; updated_at = at; last_reported_at = some at }

abbrev pub count_telemetry : Service → Service
count_telemetry s = record s {
  counters = record s.counters { telemetry_received = inc64 s.counters.telemetry_received };
}

module _ (env : Env) where
  -- A report without a time has the time of its arrival.
  abbrev pub time_or_now : Time → Action Time
  time_or_now at = if nat_eq at 0 then read_clock env else pure at

  abbrev pub accept : Device → Telemetry → Action (Unit {0})
  accept device telemetry = do
    write (append_telemetry telemetry)
    shadow ← ensure_shadow env device
    write (save_shadow (reported_shadow env.sprint telemetry.values telemetry.timestamp shadow))
    evaluate_rules env device telemetry
    modify count_telemetry
    modify (touch_device telemetry.device_id telemetry.timestamp)

  unfoldable pub handle_telemetry : String → Time → Dict Value → Action (Unit {0})
  unfolding touch_device when_product
  handle_telemetry device_id at values = do
    device ← query (get_device device_id)
    product ← gets (λ s. load_product device.product_id s.store)
    when_product product (λ p. validate_thing_values p values)
    timestamp ← time_or_now at
    accept device
        record { device_id = device_id; timestamp = timestamp; values = clone_any_map values }

unfoldable pub list_telemetry : String → ℤ → Action (List Telemetry)
list_telemetry device_id limit = do
  _ ← query (get_device device_id)
  gets (λ s. list_telemetry_by_device device_id limit s.store)

unfoldable pub list_commands : String → ℤ → Action (List Command)
list_commands device_id limit = do
  _ ← query (get_device device_id)
  gets (λ s. list_commands_by_device device_id limit s.store)
