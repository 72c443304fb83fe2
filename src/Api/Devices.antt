-- ===== src/Api/Devices.antt =====
-- The handlers of devices, api/server.go.
use getdata.Base.{
  ℕ, String, Option, none, some, List, [], ◌∷◌, ◌==◌, if◌then◌else◌, Result, ok, err, Error,
  device_not_found, tenant_not_found, product_not_found, device_offline,
}
use getdata.Base.Dict.{Dict}
use getdata.Base.Text.{trim_space, trim, strip_prefix, split_on}
use getdata.Base.Words.{pos}
use getdata.Model.{Value, Command}
use getdata.Core.State.{Env, Action, ◌>>=◌, pure, gets, attempt}
use getdata.Core.Views.Listing.{get_device_view, list_devices_by_tenant}
use getdata.Core.Members.{update_device_tags}
use getdata.Core.Provision.{add_device}
use getdata.Core.Shadows.{get_device_shadow, update_desired_shadow}
use getdata.Core.Commands.{send_command}
use getdata.Core.Telemetry.{list_telemetry, list_commands}
use getdata.Mqtt.Topics.{is_slash}
use getdata.Api.{DeviceRequest, Request, Response, Body, problem, parse_limit}
use getdata.Api.Guards.{Handler}

-- writeJSON of what an operation returned, or the status of its error.
abbrev pub respond : {A : Type 0} → ℕ → (A → Body) → (Error → ℕ) → Result A → Response
respond status body failed (err e) = problem (failed e)
respond status body failed (ok a) = record { status = status; body = some (body a) }

abbrev pub device_status : Error → ℕ
device_status device_not_found = 404
device_status _ = 500

abbrev pub create_status : Error → ℕ
create_status tenant_not_found = 404
create_status product_not_found = 404
create_status _ = 500

abbrev pub shadow_status : Error → ℕ
shadow_status device_not_found = 404
shadow_status _ = 400

abbrev pub command_status : Error → ℕ
command_status device_not_found = 404
command_status device_offline = 409
command_status _ = 502

-- The answer to SendCommand: the error that a device is offline comes with a command.
abbrev pub command_response : Result (Command × Option Error) → Response
command_response (err e) = problem (command_status e)
command_response (ok (c, none)) = record { status = 202; body = some (Body.command c) }
command_response (ok (c, some device_offline)) = record {
  status = 409;
  body = some (Body.command c);
}
command_response (ok (c, some e)) = problem (command_status e)

-- handleListDevices
unfoldable pub handle_list_devices : Handler
unfolding list_devices_by_tenant trim_space
handle_list_devices r =
    gets (list_devices_by_tenant (trim_space r.query_tenant_id) (trim_space r.query_product_id))
    >>= λ listed. pure (respond 200 Body.views (λ e. 500) listed)

-- handleGetDevice
unfoldable pub handle_get_device : String → Action Response
unfolding get_device_view
handle_get_device device_id =
    gets (get_device_view device_id) >>= λ found. pure (respond 200 Body.view device_status found)

-- handleListTelemetry
unfoldable pub handle_list_telemetry : Request → String → Action Response
unfolding list_telemetry parse_limit
handle_list_telemetry r device_id = do
  listed ← attempt (list_telemetry device_id (pos (parse_limit r 50 500)))
  pure (respond 200 Body.telemetry device_status listed)

-- handleListCommands
unfoldable pub handle_list_commands : Request → String → Action Response
unfolding list_commands parse_limit
handle_list_commands r device_id = do
  listed ← attempt (list_commands device_id (pos (parse_limit r 50 500)))
  pure (respond 200 Body.commands device_status listed)

-- handleUpdateDeviceTags
unfoldable pub handle_update_device_tags : Option (Dict String) → String → Action Response
unfolding update_device_tags
handle_update_device_tags none device_id = pure (problem 400)
handle_update_device_tags (some tags) device_id = do
  updated ← attempt (update_device_tags device_id tags)
  pure (respond 200 Body.device device_status updated)

module _ (env : Env) where
  -- handleCreateDevice
  unfoldable pub handle_create_device : Option DeviceRequest → Action Response
  unfolding add_device
  handle_create_device none = pure (problem 400)
  handle_create_device (some d) = do
    created ← attempt (add_device env d.tenant_id d.name d.product_id d.tags d.metadata)
    pure (respond 201 Body.device create_status created)

  -- handleSendCommand
  unfoldable pub handle_send_command : Option (String × Dict Value) → String → Action Response
  unfolding send_command
  handle_send_command none device_id = pure (problem 400)
  handle_send_command (some (name, params)) device_id = do
    sent ← attempt (send_command env device_id name params)
    pure (command_response sent)

  -- handleGetShadow
  unfoldable pub handle_get_shadow : String → Action Response
  unfolding get_device_shadow
  handle_get_shadow device_id = do
    found ← attempt (get_device_shadow env device_id)
    pure (respond 200 Body.shadow device_status found)

  -- handleUpdateShadow
  unfoldable pub handle_update_shadow : Option (Dict Value) → String → Action Response
  unfolding update_desired_shadow
  handle_update_shadow none device_id = pure (problem 400)
  handle_update_shadow (some desired) device_id = do
    updated ← attempt (update_desired_shadow env device_id desired)
    pure (respond 200 Body.shadow shadow_status updated)

  -- handleDevices
  unfoldable pub handle_devices : Handler
  unfolding handle_list_devices handle_create_device
  handle_devices r =
      if r.path == "/api/v1/devices"
      then (if r.method == "GET"
          then handle_list_devices r
          else if r.method == "POST"
          then handle_create_device r.device_body
          else pure (problem 405))
      else pure (problem 404)

  -- The routes below a device, by the second part of the path.
  abbrev pub device_route : Request → String → String → Action Response
  device_route r device_id part =
      if part == "tags"
      then (if r.method == "PUT"
          then handle_update_device_tags r.tags_body device_id
          else pure (problem 405))
      else if part == "shadow"
      then (if r.method == "GET"
          then handle_get_shadow device_id
          else if r.method == "PUT"
          then handle_update_shadow r.shadow_body device_id
          else pure (problem 405))
      else if part == "telemetry"
      then (if r.method == "GET" then handle_list_telemetry r device_id else pure (problem 405))
      else if part == "commands"
      then (if r.method == "GET"
          then handle_list_commands r device_id
          else if r.method == "POST"
          then handle_send_command r.command_body device_id
          else pure (problem 405))
      else pure (problem 404)

  abbrev pub device_parts : Request → List String → Action Response
  device_parts r [] = pure (problem 404)
  device_parts r (device_id ∷ []) =
      if r.method == "GET" then handle_get_device device_id else pure (problem 405)
  device_parts r (device_id ∷ part ∷ _) = device_route r device_id part

  abbrev without_prefix : Option String → String → String
  without_prefix none path = path
  without_prefix (some rest) path = rest

  -- handleDeviceRoutes
  unfoldable pub handle_device_routes : Handler
  unfolding trim strip_prefix split_on handle_get_device handle_update_device_tags handle_get_shadow
      handle_update_shadow handle_list_telemetry handle_list_commands handle_send_command
  handle_device_routes r =
      let path = trim is_slash (without_prefix (strip_prefix r.path "/api/v1/devices/") r.path) in
      if path == "" then pure (problem 404) else device_parts r (split_on 0x2f path)
