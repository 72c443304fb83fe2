-- ===== src/Examples/ApiRuns.antt =====
-- The HTTP API: a payload that is pushed, and a standby node.
use getdata.Base.{[], ◌+◌, ◌≡◌, refl, true, false, none, some, ok}
use getdata.Core.Sessions.{record_http_request}
use getdata.Core.State.{◌>>=◌, attempt, query, pure}
use getdata.Core.State.Preserves.{Preserves-pure}
use getdata.Core.Soundness.{IsSound}
use getdata.Api.{Request, Response, problem, parse_limit}
use getdata.Api.Devices.{handle_device_routes, handle_send_command}
use getdata.Base.Dict.{lookup}
use getdata.Store.Catalog.{get_device}
use getdata.Core.Shadows.{get_device_shadow}
use getdata.Api.Ingest.{extract_ingress_token, handle_http_ingest_routes}
use getdata.Api.Answers.{Answer, handle_send_command-Answer}
use getdata.Api.Guards.{is_mutating_method, handler, handler-standby}
use getdata.Api.Routes.{routes, api-IsSound}
use getdata.Examples.ServiceRuns.{world, serving}
use getdata.Examples.MqttRuns.{machine, reading, made, made-IsSound}

abbrev push : Request
push = record {
  method = "POST";
  path = "/api/v1/ingest/http/dev_00ff/";
  query_token = "";
  query_limit = "";
  query_tenant_id = "";
  query_product_id = "";
  device_token = " ";
  authorization = "Bearer 00ff ";
  body = some reading;
  body_bytes = 40;
  device_body = none;
  tags_body = none;
  command_body = none;
  shadow_body = none;
}

extract_ingress_token_runs : extract_ingress_token push reading ≡ "00ff"
unfolding extract_ingress_token
extract_ingress_token_runs = refl

parse_limit_runs :
    parse_limit (record push { query_limit = "9999" }) 50 500
      + parse_limit (record push { query_limit = "-3" }) 50 500
    ≡ 550
unfolding parse_limit
parse_limit_runs = refl

unknown_device_runs :
    (handle_device_routes world
      (record push { method = "GET"; path = "/api/v1/devices/dev_9/shadow" })
      serving).0
    ≡ ok (problem 404)
unfolding handle_device_routes get_device_shadow get_device lookup ◌>>=◌ attempt query pure
unknown_device_runs = refl

handle_send_command-Answer_example :
    (r : Response) × ((handle_send_command world (some ("reboot", [])) "dev_1" serving).0 ≡ ok r)
    × Answer (handle_send_command world (some ("reboot", [])) "dev_1" serving).1 r
handle_send_command-Answer_example =
    handle_send_command-Answer world (some ("reboot", [])) "dev_1" serving

handler-standby_example :
    handler
      (record { standby = true; installed = true })
      (handle_http_ingest_routes world machine)
      push
      serving
    ≡ (ok (problem 503), record_http_request 503 serving)
unfolding is_mutating_method
handler-standby_example =
    handler-standby (record { standby = true; installed = true })
      (handle_http_ingest_routes world machine) push serving refl refl (λ e. absurd (cc e))
      (λ e. absurd (cc e))

api-IsSound_example :
    IsSound
      (handler
        (record { standby = false; installed = true })
        (routes world machine (λ r. none) (λ r. pure (problem 404)))
        push
        made).1
api-IsSound_example =
    api-IsSound world machine (λ r. none) (λ r. pure (problem 404))
      (record { standby = false; installed = true }) push made (Preserves-pure _) made-IsSound
