-- ===== src/Api/Answers.antt =====
-- What the answer to a command over HTTP (handleSendCommand, api/server.go) says of the store.
use getdata.Base.{
  ℕ, ◌≡◌, ◌≤◌, refl, String, Option, none, some, Result, ok, err, Error, device_not_found,
  device_offline, arith,
}
use getdata.Base.Dict.{Dict}
use getdata.Model.{Value, Command, CommandStatus}
use getdata.Store.Records.{get_command}
use getdata.Core.State.{Env, Service, ◌>>=◌, attempt, pure}
use getdata.Core.Commands.{send_command}
use getdata.Core.Commands.Outcome.{Told, send_command-Told}
use getdata.Api.{Response, Body, problem}
use getdata.Api.Devices.{command_response, command_status, handle_send_command}

-- A response to a command, over the state of the service when it is given.
pub data Answer (s : Service) : Response → Type 0 where
  sent :
      (c : Command)
      → get_command c.id s.store ≡ ok c
      → c.status ≡ CommandStatus.sent
      → Answer s (record { status = 202; body = some (Body.command c) })
  offline :
      (c : Command)
      → get_command c.id s.store ≡ ok c
      → c.status ≡ CommandStatus.failed
      → Answer s (record { status = 409; body = some (Body.command c) })
  refused : (status : ℕ) → 400 ≤ status → Answer s (problem status)

command_status-400 : (e : Error) → 400 ≤ command_status e
command_status-400 device_not_found = omega arith
command_status-400 device_offline = omega arith
command_status-400 _ = omega arith

command_response-Answer :
    (x : Result (Command × Option Error) × Service) → Told x → Answer x.1 (command_response x.0)
command_response-Answer (err e, s) h = refused _ (command_status-400 e)
command_response-Answer (ok (c, none), s) (g, k) = sent c g k
command_response-Answer (ok (c, some device_offline), s) (g, k) = offline c g k
command_response-Answer (ok (c, some e), s) h = refused _ (command_status-400 e)

-- A request to send a command is always answered: with 202 and the command as the store then holds
-- it, as sent; with 409 and the command as the store then holds it, as failed; or with an error
-- status and no command.
pub handle_send_command-Answer :
    (env : Env) (body : Option (String × Dict Value)) (device_id : String) (s : Service)
    → (r : Response) × ((handle_send_command env body device_id s).0 ≡ ok r)
      × Answer (handle_send_command env body device_id s).1 r
unfolding handle_send_command send_command ◌>>=◌ attempt pure
handle_send_command-Answer env none device_id s = (problem 400, refl, refused 400 (omega arith))
handle_send_command-Answer env (some (name, params)) device_id s =
    (_, refl, command_response-Answer _ (send_command-Told env device_id "" name params s))
