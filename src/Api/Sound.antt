-- ===== src/Api/Sound.antt =====
-- Telemetry over HTTP (api/ingest.go): what it keeps.
use getdata.Base.{ℕ, String, Option, none, some, Result, ok, err, product_not_found}
use getdata.Base.Dict.{Dict}
use getdata.Model.{Value, Device, Product, ProductAccessProfile, DeviceShadow}
use getdata.Core.State.{Env, read_clock}
use getdata.Core.State.Preserves.{Preserves, preserve_rules}
use getdata.Core.Sessions.{authenticate_device}
use getdata.Core.Soundness.{IsSound}
use getdata.Core.Soundness.Operations.{clock-IsSound, handle_telemetry-IsSound, shadow-IsSound}
use getdata.Core.Soundness.Counters.{ingest_result-IsSound}
use getdata.Ingest.{Platform, build_values}
use getdata.Api.{Request}
use getdata.Api.Ingest.{
  reject, with_shadow, after_report, with_values, with_profile, with_product, with_device,
  with_payload, handle_http_ingest, handle_http_ingest_routes,
}

reject-IsSound : (values status : ℕ) → Preserves IsSound (reject values status)
unfolding reject
reject-IsSound values status = search (preserve_rules, ingest_result-IsSound)

authenticate-IsSound :
    (device_id token : String) → Preserves IsSound (authenticate_device device_id token)
unfolding authenticate_device
authenticate-IsSound device_id token = search preserve_rules depth 16

module _ (env : Env) (platform : Platform) where
  now-IsSound : Preserves IsSound (read_clock env)
  now-IsSound = clock-IsSound env

  with_shadow-IsSound :
      (device : Device) (profile : ProductAccessProfile) (values : Dict Value)
      (r : Result DeviceShadow)
      → Preserves IsSound (with_shadow env platform device profile values r)
  with_shadow-IsSound device profile values (err _) = search preserve_rules
  with_shadow-IsSound device profile values (ok _) = search (preserve_rules, now-IsSound)

  after_report-IsSound :
      (r : Request) (device : Device) (profile : ProductAccessProfile) (values : Dict Value)
      (reported : Result (Unit {0}))
      → Preserves IsSound (after_report env platform r device profile values reported)
  after_report-IsSound r device profile values (err _) = reject-IsSound _ 400
  after_report-IsSound r device profile values (ok _) =
      search (preserve_rules, ingest_result-IsSound, shadow-IsSound env, with_shadow-IsSound) depth
        16

  with_values-IsSound :
      (r : Request) (device : Device) (profile : ProductAccessProfile) (payload : Dict Value)
      (values : Result (Dict Value))
      → Preserves IsSound (with_values env platform r device profile payload values)
  with_values-IsSound r device profile payload (err _) = reject-IsSound 0 400
  with_values-IsSound r device profile payload (ok values) =
      search
        (
          preserve_rules,
          now-IsSound,
          handle_telemetry-IsSound env,
          after_report-IsSound,
          reject-IsSound,
        )
        depth 16

  with_profile-IsSound :
      (r : Request) (device : Device) (payload : Dict Value) (profile : ProductAccessProfile)
      → Preserves IsSound (with_profile env platform r device payload profile)
  with_profile-IsSound r device payload profile =
      with_values-IsSound r device profile payload (build_values platform payload profile)

  with_product-IsSound :
      (r : Request) (device : Device) (payload : Dict Value) (product : Result Product)
      → Preserves IsSound (with_product env platform r device payload product)
  with_product-IsSound r device payload (ok product) = with_profile-IsSound r device payload _
  with_product-IsSound r device payload (err product_not_found) =
      with_profile-IsSound r device payload _
  with_product-IsSound r device payload (err _) = reject-IsSound 0 500

  with_device-IsSound :
      (r : Request) (payload : Dict Value) (device : Result Device)
      → Preserves IsSound (with_device env platform r payload device)
  with_device-IsSound r payload (err e) = reject-IsSound 0 _
  with_device-IsSound r payload (ok device) =
      search (preserve_rules, with_profile-IsSound, with_product-IsSound) depth 16

  with_payload-IsSound :
      (r : Request) (device_id : String) (payload : Option (Dict Value))
      → Preserves IsSound (with_payload env platform r device_id payload)
  with_payload-IsSound r device_id none = reject-IsSound 0 400
  with_payload-IsSound r device_id (some payload) =
      search (preserve_rules, reject-IsSound, authenticate-IsSound, with_device-IsSound) depth 16

  pub ingest-IsSound : (r : Request) → Preserves IsSound (handle_http_ingest_routes env platform r)
  unfolding handle_http_ingest_routes handle_http_ingest
  ingest-IsSound r = search (preserve_rules, with_payload-IsSound) depth 16
