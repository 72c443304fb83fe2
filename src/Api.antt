-- ===== src/Api.antt =====
-- internal/api: the HTTP API. A request is what the handlers read of it; a response is its status
-- and what a handler puts into it. Writing bytes, headers and log lines are left out.
pub mod Ingest
pub mod Guards
pub mod Devices
pub mod Answers
pub mod Sound
pub mod Routes
use getdata.Base.{
  ℕ, String, Bool, true, false, Option, none, some, List, [], ◌∷◌, ◌==◌, ltb, if◌then◌else◌,
}
use getdata.Base.Dict.{Dict}
use getdata.Base.Decimal.{parse_int}
use getdata.Base.Text.{trim_space}
use getdata.Base.Words.{ℤ, pos, negsuc}
use getdata.Model.{Time, Value, Device, Telemetry, Command, DeviceShadow}
use getdata.Core.Views.{DeviceView}

-- The body of handleCreateDevice
pub record DeviceRequest : Type 0 where
  pub tenant_id : String
  pub name : String
  pub product_id : String
  pub tags : Dict String
  pub metadata : Dict String

-- A missing query parameter or header reads as the empty text. The body is none if decodeJSON
-- rejects it; `body_bytes` is what approximatePayloadBytes gives for it. The other bodies are what
-- decodeJSON makes of it for the other handlers.
pub record Request : Type 0 where
  pub method : String
  pub path : String
  pub query_token : String
  pub query_limit : String
  pub query_tenant_id : String
  pub query_product_id : String
  pub device_token : String
  pub authorization : String
  pub body : Option (Dict Value)
  pub body_bytes : ℕ
  pub device_body : Option DeviceRequest
  pub tags_body : Option (Dict String)
  pub command_body : Option (String × Dict Value)
  pub shadow_body : Option (Dict Value)

pub record Accepted : Type 0 where
  pub device_id : String
  pub protocol : String
  pub ingest_mode : String
  pub accepted_at : Time
  pub resolved_values : Dict Value
  pub shadow : DeviceShadow

pub data Body : Type 0 where
  ingested : Accepted → Body
  device : Device → Body
  view : DeviceView → Body
  views : List DeviceView → Body
  telemetry : List Telemetry → Body
  command : Command → Body
  commands : List Command → Body
  shadow : DeviceShadow → Body

pub record Response : Type 0 where
  pub status : ℕ
  pub body : Option Body

-- writeError, without its text
abbrev pub problem : ℕ → Response
problem status = record { status = status; body = none }

-- A number that was read, within the bounds.
abbrev pub limit_of : ℕ → ℕ → Option ℤ → ℕ
limit_of fallback max none = fallback
limit_of fallback max (some (negsuc _)) = fallback
limit_of fallback max (some (pos ℕ.zero)) = fallback
limit_of fallback max (some (pos (ℕ.suc n))) = if ltb max (ℕ.suc n) then max else ℕ.suc n

-- parseLimit
unfoldable pub parse_limit : Request → ℕ → ℕ → ℕ
unfolding parse_int trim_space
parse_limit r fallback max =
    let raw = trim_space r.query_limit in
    if raw == "" then fallback else limit_of fallback max (parse_int raw)
