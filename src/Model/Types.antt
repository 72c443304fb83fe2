-- ===== src/Model/Types.antt =====
-- internal/model/types.go, access.go and protocol.go: the records, with the source's field names.
-- A time is its nanoseconds since 0001-01-01 UTC, so Go's zero time is 0; a pointer is an `Option`.
-- `int` and `int64` counters are 64-bit patterns (Base/Words).
use getdata.Base.{ℕ, String, Bool, Option, List}
use getdata.Base.Dict.{Dict}
use getdata.Base.Words.{ℤ}
use getdata.Model.Values.{Value, Float64}

abbrev pub Time : Type 0
Time = ℕ

pub record Tenant : Type 0 where
  pub id : String
  pub slug : String
  pub name : String
  pub description : String
  pub metadata : Dict String
  pub created_at : Time
  pub updated_at : Time

pub record TenantSummary : Type 0 where
  pub id : String
  pub slug : String
  pub name : String

pub record Device : Type 0 where
  pub id : String
  pub tenant_id : String
  pub name : String
  pub product_id : String
  pub product_key : String
  pub token : String
  pub tags : Dict String
  pub metadata : Dict String
  pub created_at : Time

pub record Telemetry : Type 0 where
  pub device_id : String
  pub timestamp : Time
  pub values : Dict Value

pub data CommandStatus : Type 0 where
  pending sent acked failed : CommandStatus

pub record Command : Type 0 where
  pub id : String
  pub device_id : String
  pub campaign_id : String
  pub name : String
  pub params : Dict Value
  pub status : CommandStatus
  pub result : String
  pub created_at : Time
  pub updated_at : Time

pub record ThingModelParameter : Type 0 where
  pub identifier : String
  pub name : String
  pub data_type : String
  pub description : String

pub record ThingModelProperty : Type 0 where
  pub identifier : String
  pub name : String
  pub data_type : String
  pub access_mode : String
  pub required : Bool
  pub description : String

pub record ThingModelEvent : Type 0 where
  pub identifier : String
  pub name : String
  pub output : List ThingModelParameter
  pub description : String

pub record ThingModelService : Type 0 where
  pub identifier : String
  pub name : String
  pub input : List ThingModelParameter
  pub output : List ThingModelParameter
  pub description : String

pub record ThingModel : Type 0 where
  pub properties : List ThingModelProperty
  pub events : List ThingModelEvent
  pub services : List ThingModelService
  pub version : ℕ
  pub updated_at : Time

pub record ProtocolPointMapping : Type 0 where
  pub source : String
  pub property : String
  pub scale : Float64
  pub offset : Float64
  pub unit : String

pub record ProductAccessProfile : Type 0 where
  pub transport : String
  pub protocol : String
  pub ingest_mode : String
  pub payload_format : String
  pub auth_mode : String
  pub sensor_template : String
  pub topic : String
  pub notes : String
  pub metadata : Dict String
  pub point_mappings : List ProtocolPointMapping

pub record Product : Type 0 where
  pub id : String
  pub tenant_id : String
  pub key : String
  pub name : String
  pub description : String
  pub metadata : Dict String
  pub access_profile : ProductAccessProfile
  pub thing_model : ThingModel
  pub created_at : Time
  pub updated_at : Time

pub record DeviceGroup : Type 0 where
  pub id : String
  pub tenant_id : String
  pub name : String
  pub description : String
  pub product_id : String
  pub tags : Dict String
  pub created_at : Time
  pub updated_at : Time

pub record DeviceShadow : Type 0 where
  pub device_id : String
  pub product_id : String
  pub reported : Dict Value
  pub desired : Dict Value
  pub version : ℕ
  pub updated_at : Time
  pub last_reported_at : Option Time
  pub last_desired_at : Option Time

pub record ConfigProfile : Type 0 where
  pub id : String
  pub tenant_id : String
  pub name : String
  pub description : String
  pub product_id : String
  pub values : Dict Value
  pub applied_count : ℕ
  pub last_applied_at : Option Time
  pub created_at : Time
  pub updated_at : Time

pub record RuleCondition : Type 0 where
  pub property : String
  pub operator : String
  pub value : Value

-- The texts of `RuleActionType` and `AlertSeverity` come from requests before they are normalised.
abbrev pub rule_action_alert : String
rule_action_alert = "alert"

abbrev pub rule_action_send_command : String
rule_action_send_command = "send_command"

abbrev pub rule_action_apply_config : String
rule_action_apply_config = "apply_config_profile"

pub record RuleAction : Type 0 where
  pub type : String
  pub name : String
  pub params : Dict Value
  pub config_profile_id : String
  pub severity : String
  pub message : String

abbrev pub alert_severity_info : String
alert_severity_info = "info"

abbrev pub alert_severity_warning : String
alert_severity_warning = "warning"

abbrev pub alert_severity_critical : String
alert_severity_critical = "critical"

pub data AlertStatus : Type 0 where
  new acknowledged resolved : AlertStatus

pub record Rule : Type 0 where
  pub id : String
  pub tenant_id : String
  pub name : String
  pub description : String
  pub product_id : String
  pub group_id : String
  pub device_id : String
  pub enabled : Bool
  pub severity : String
  pub cooldown_seconds : ℤ
  pub condition : RuleCondition
  pub actions : List RuleAction
  pub created_at : Time
  pub updated_at : Time

pub record AlertEvent : Type 0 where
  pub id : String
  pub rule_id : String
  pub rule_name : String
  pub tenant_id : String
  pub product_id : String
  pub group_id : String
  pub device_id : String
  pub device_name : String
  pub property : String
  pub operator : String
  pub threshold : Value
  pub value : Value
  pub severity : String
  pub status : AlertStatus
  pub message : String
  pub note : String
  pub ack_at : Option Time
  pub resolved_at : Option Time
  pub triggered_at : Time

pub record FirmwareArtifact : Type 0 where
  pub id : String
  pub tenant_id : String
  pub product_id : String
  pub name : String
  pub version : String
  pub file_name : String
  pub url : String
  pub checksum : String
  pub checksum_type : String
  pub size_bytes : ℤ
  pub notes : String
  pub metadata : Dict String
  pub created_at : Time
  pub updated_at : Time

pub data OtaCampaignStatus : Type 0 where
  pending running completed partial : OtaCampaignStatus

pub record OtaCampaign : Type 0 where
  pub id : String
  pub tenant_id : String
  pub name : String
  pub firmware_id : String
  pub product_id : String
  pub group_id : String
  pub device_id : String
  pub status : OtaCampaignStatus
  pub total_devices : ℕ
  pub dispatched_count : ℕ
  pub acked_count : ℕ
  pub failed_count : ℕ
  pub last_dispatched_at : Option Time
  pub created_at : Time
  pub updated_at : Time

-- What a device sends, and what the platform sends to it.
pub record DeviceMessage : Type 0 where
  pub type : String
  pub device_id : String
  pub token : String
  pub ts : ℤ
  pub values : Dict Value
  pub command_id : String
  pub status : String
  pub message : String

pub record ServerMessage : Type 0 where
  pub type : String
  pub server_time : ℤ
  pub device_id : String
  pub command_id : String
  pub name : String
  pub params : Dict Value
  pub status : String
  pub message : String
  pub error : String
