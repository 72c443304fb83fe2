-- ===== src/Api/Ingest.antt =====
-- api/ingest.go: telemetry that is pushed over HTTP.
use getdata.Base.{
  ℕ, String, true, false, Option, none, some, ◌==◌, if◌then◌else◌, length, Result, ok, err, Error,
  device_not_found, invalid_credential, product_not_found,
}
use getdata.Base.Dict.{Dict, lookup}
use getdata.Base.Text.{trim_space, trim, to_lower, has_prefix, strip_prefix, after}
use getdata.Model.{Value, Device, Product, ProductAccessProfile, DeviceShadow, str}
use getdata.Store.Catalog.{get_product}
use getdata.Core.State.{Env, Action, ◌>>=◌, ◌>>◌, pure, query, modify, attempt, read_clock}
use getdata.Core.Sessions.{authenticate_device, record_http_ingest_result}
use getdata.Core.Shadows.{get_device_shadow}
use getdata.Core.Telemetry.{handle_telemetry}
use getdata.Ingest.{Platform, build_values, extract_timestamp, filled}
use getdata.Mqtt.Topics.{is_slash}
use getdata.Mqtt.Hooks.{no_profile}
use getdata.Api.{Request, Response, Body, problem}

-- "Bearer …", or the header as it is.
abbrev bearer : String → String
bearer raw = if has_prefix (to_lower raw) "bearer " then trim_space (after 7 raw) else raw

abbrev payload_token : Option Value → String
payload_token (some (str s)) = trim_space s
payload_token _ = ""

-- extractIngressToken: the query, the two headers, the payload.
unfoldable pub extract_ingress_token : Request → Dict Value → String
unfolding trim_space to_lower has_prefix after lookup
extract_ingress_token r payload =
    if trim_space r.query_token == ""
    then (if trim_space r.device_token == ""
        then (if trim_space r.authorization == ""
            then payload_token (lookup "token" payload)
            else bearer (trim_space r.authorization))
        else trim_space r.device_token)
    else trim_space r.query_token

-- The status of a failed authentication.
abbrev pub auth_status : Error → ℕ
auth_status device_not_found = 404
auth_status invalid_credential = 401
auth_status _ = 400

-- RecordHTTPIngestResult(false, …), and the error.
unfoldable pub reject : ℕ → ℕ → Action Response
reject value_count status =
    modify (record_http_ingest_result false 0 value_count) >> pure (problem status)

module _ (env : Env) (platform : Platform) where
  abbrev pub with_shadow :
      Device → ProductAccessProfile → Dict Value → Result DeviceShadow → Action Response
  with_shadow device profile values (err _) = pure (problem 500)
  with_shadow device profile values (ok shadow) = do
    now ← read_clock env
    pure (record {
      status = 202;
      body = some (
          Body.ingested (record {
            device_id = device.id;
            protocol = profile.protocol;
            ingest_mode = profile.ingest_mode;
            accepted_at = now;
            resolved_values = values;
            shadow = shadow;
          }));
    })

  abbrev pub after_report :
      Request → Device → ProductAccessProfile → Dict Value → Result (Unit {0}) → Action Response
  after_report r device profile values (err _) = reject (length values) 400
  after_report r device profile values (ok _) = do
    modify (record_http_ingest_result true r.body_bytes (length values))
    shadow ← attempt (get_device_shadow env device.id)
    with_shadow device profile values shadow

  abbrev pub with_values :
      Request → Device → ProductAccessProfile → Dict Value → Result (Dict Value) → Action Response
  with_values r device profile payload (err _) = reject 0 400
  with_values r device profile payload (ok values) =
      if filled values
      then (do
        now ← read_clock env
        reported ←
            attempt (handle_telemetry env device.id (extract_timestamp platform payload now) values)
        after_report r device profile values reported)
      else reject 0 400

  abbrev pub with_profile : Request → Device → Dict Value → ProductAccessProfile → Action Response
  with_profile r device payload profile =
      with_values r device profile payload (build_values platform payload profile)

  abbrev pub with_product : Request → Device → Dict Value → Result Product → Action Response
  with_product r device payload (ok product) = with_profile r device payload product.access_profile
  with_product r device payload (err product_not_found) = with_profile r device payload no_profile
  with_product r device payload (err _) = reject 0 500

  abbrev pub with_device : Request → Dict Value → Result Device → Action Response
  with_device r payload (err e) = reject 0 (auth_status e)
  with_device r payload (ok device) =
      if device.product_id == ""
      then with_profile r device payload no_profile
      else (attempt (query (get_product (trim_space device.product_id)))
          >>= with_product r device payload)

  abbrev pub with_payload : Request → String → Option (Dict Value) → Action Response
  with_payload r device_id none = reject 0 400
  with_payload r device_id (some payload) =
      let token = extract_ingress_token r payload in
      if trim_space token == ""
      then reject 0 401
      else (attempt (authenticate_device device_id token) >>= with_device r payload)

  -- handleHTTPIngest
  unfoldable pub handle_http_ingest : Request → String → Action Response
  unfolding reject extract_ingress_token
  handle_http_ingest r device_id = with_payload r device_id r.body

  abbrev without_prefix : Option String → String → String
  without_prefix none path = path
  without_prefix (some rest) path = rest

  -- handleHTTPIngestRoutes
  unfoldable pub handle_http_ingest_routes : Request → Action Response
  unfolding handle_http_ingest trim strip_prefix
  handle_http_ingest_routes r =
      let path =
        trim is_slash (without_prefix (strip_prefix r.path "/api/v1/ingest/http/") r.path) in
      if path == ""
      then pure (problem 404)
      else if r.method == "POST"
      then handle_http_ingest r path
      else pure (problem 405)
