-- ===== src/Api/Routes.antt =====
-- The ingest and device routes of the API behind its guards (api/server.go), and what they keep.
use getdata.Base.{String, Option, none, some, List, [], ◌∷◌, ◌==◌, if◌then◌else◌}
use getdata.Base.Dict.{Dict}
use getdata.Base.Text.{has_prefix}
use getdata.Model.{Value}
use getdata.Core.State.{Env, Service, Action, pure}
use getdata.Core.State.Preserves.{Preserves, preserve_rules}
use getdata.Core.Shadows.{get_device_shadow}
use getdata.Core.Commands.{send_command}
use getdata.Core.Telemetry.{list_telemetry, list_commands}
use getdata.Core.Soundness.{IsSound}
use getdata.Core.Soundness.Writes.{IsSound-IsStable}
use getdata.Core.Soundness.Stable.{update_desired_shadow-Preserves, send_command-Preserves}
use getdata.Core.Soundness.Operations.{ensure_shadow-IsSound, update_device_tags-IsSound}
use getdata.Core.Soundness.Creation.{add_device-IsSound}
use getdata.Ingest.{Platform}
use getdata.Api.{DeviceRequest, Request, Response}
use getdata.Api.Ingest.{handle_http_ingest_routes}
use getdata.Api.Devices.{
  handle_list_devices, handle_get_device, handle_list_telemetry, handle_list_commands,
  handle_update_device_tags, handle_create_device, handle_send_command, handle_get_shadow,
  handle_update_shadow, handle_devices, device_route, device_parts, handle_device_routes,
}
use getdata.Api.Guards.{Handler, Node, handler, handler-IsSound}
use getdata.Api.Sound.{ingest-IsSound}

-- A request by its path.
unfoldable pub routed : Env → Platform → Handler → Handler
unfolding handle_http_ingest_routes handle_devices handle_device_routes has_prefix
routed env platform other r =
    if has_prefix r.path "/api/v1/ingest/http/"
    then handle_http_ingest_routes env platform r
    else if r.path == "/api/v1/devices"
    then handle_devices env r
    else if has_prefix r.path "/api/v1/devices/"
    then handle_device_routes env r
    else other r

-- The mux of Handler: the routes of devices and of ingest; every other path goes to `other`. What
-- ServeMux answers itself, such as the redirect to a clean path, is `redirect`.
unfoldable pub routes : Env → Platform → (Request → Option Response) → Handler → Handler
unfolding routed
routes env platform redirect other r = elim (redirect r) [
  | some response ↦ pure response
  | none ↦ routed env platform other r
]

list_telemetry-IsSound : (r : Request) (d : String) → Preserves IsSound (handle_list_telemetry r d)
unfolding handle_list_telemetry list_telemetry
list_telemetry-IsSound r d = search preserve_rules depth 16

list_commands-IsSound : (r : Request) (d : String) → Preserves IsSound (handle_list_commands r d)
unfolding handle_list_commands list_commands
list_commands-IsSound r d = search preserve_rules depth 16

get_device-IsSound : (d : String) → Preserves IsSound (handle_get_device d)
unfolding handle_get_device
get_device-IsSound d = search preserve_rules

list_devices-IsSound : (r : Request) → Preserves IsSound (handle_list_devices r)
unfolding handle_list_devices
list_devices-IsSound r = search preserve_rules

module _ (env : Env) where
  update_tags-IsSound :
      (tags : Option (Dict String)) (d : String)
      → Preserves IsSound (handle_update_device_tags tags d)
  unfolding handle_update_device_tags
  update_tags-IsSound none d = search preserve_rules
  update_tags-IsSound (some tags) d =
      search (preserve_rules, update_device_tags-IsSound env) depth 16

  create_device-IsSound :
      (d : Option DeviceRequest) → Preserves IsSound (handle_create_device env d)
  unfolding handle_create_device
  create_device-IsSound none = search preserve_rules
  create_device-IsSound (some d) = search (preserve_rules, add_device-IsSound env) depth 16

  command-IsSound :
      (c : Option (String × Dict Value)) (d : String)
      → Preserves IsSound (handle_send_command env c d)
  unfolding handle_send_command send_command
  command-IsSound none d = search preserve_rules
  command-IsSound (some (name, params)) d =
      search (preserve_rules, send_command-Preserves IsSound-IsStable env) depth 16

  get_shadow-IsSound : (d : String) → Preserves IsSound (handle_get_shadow env d)
  unfolding handle_get_shadow get_device_shadow
  get_shadow-IsSound d = search (preserve_rules, ensure_shadow-IsSound env) depth 16

  update_shadow-IsSound :
      (desired : Option (Dict Value)) (d : String)
      → Preserves IsSound (handle_update_shadow env desired d)
  unfolding handle_update_shadow
  update_shadow-IsSound none d = search preserve_rules
  update_shadow-IsSound (some desired) d =
      search (preserve_rules, update_desired_shadow-Preserves IsSound-IsStable env) depth 16

  devices-IsSound : (r : Request) → Preserves IsSound (handle_devices env r)
  unfolding handle_devices
  devices-IsSound r = search (preserve_rules, list_devices-IsSound, create_device-IsSound) depth 16

  route-IsSound : (r : Request) (d part : String) → Preserves IsSound (device_route env r d part)
  route-IsSound r d part =
      search
        (
          preserve_rules, update_tags-IsSound, get_shadow-IsSound, update_shadow-IsSound,
          list_telemetry-IsSound, list_commands-IsSound, command-IsSound,
        )
        depth 16

  parts-IsSound : (r : Request) (parts : List String) → Preserves IsSound (device_parts env r parts)
  parts-IsSound r [] = search preserve_rules
  parts-IsSound r (d ∷ []) = search (preserve_rules, get_device-IsSound)
  parts-IsSound r (d ∷ part ∷ _) = route-IsSound r d part

  device_routes-IsSound : (r : Request) → Preserves IsSound (handle_device_routes env r)
  unfolding handle_device_routes
  device_routes-IsSound r = search (preserve_rules, parts-IsSound) depth 16

  routed-IsSound :
      (platform : Platform) (other : Handler) (r : Request)
      → Preserves IsSound (other r)
      → Preserves IsSound (routed env platform other r)
  unfolding routed
  routed-IsSound platform other r h =
      search (preserve_rules, ingest-IsSound env platform, devices-IsSound, device_routes-IsSound)
        depth 16

  redirected-IsSound :
      (redirected : Option Response) (m : Action Response)
      → Preserves IsSound m
      → Preserves IsSound (elim redirected [ some response ↦ pure response | none ↦ m ])
  redirected-IsSound (some response) m h = search preserve_rules
  redirected-IsSound none m h = h

  -- A request to the API, behind the guards and with the count of its answer, keeps the service
  -- sound, whatever it is and however it is answered, if the routes other than those of devices
  -- and of ingest do. The mux may answer any request itself.
  pub api-IsSound :
      (platform : Platform) (redirect : Request → Option Response) (other : Handler) (node : Node)
      (r : Request) (s : Service)
      → Preserves IsSound (other r)
      → IsSound s
      → IsSound (handler node (routes env platform redirect other) r s).1
  unfolding routes
  api-IsSound platform redirect other node r s h p =
      (handler-IsSound node (routes env platform redirect other) r
          (redirected-IsSound (redirect r) _ (routed-IsSound platform other r h))).holds
        s p
