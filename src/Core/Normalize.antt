-- ===== src/Core/Normalize.antt =====
-- service.go: the words of requests, brought to the ones that the program stores.
pub mod ThingModel
pub mod AccessProfile
use getdata.Base.{
  String, Bool, Option, none, some, List, [], ◌∷◌, ◌==◌, if◌then◌else◌, contains, Result, ok, err,
}
use getdata.Base.Text.{trim_space, to_lower, trim}
use getdata.Model.{AlertStatus}

-- strings.ToLower(strings.TrimSpace(value))
abbrev pub lower_trim : String → String
lower_trim s = to_lower (trim_space s)

-- A switch whose cases are lists of words.
abbrev Cases : Type 0
Cases = List (List String × String)

abbrev choose : Cases → String → String → String
choose [] default value = default
choose ((words, result) ∷ rest) default value =
    if contains value words then result else choose rest default value

abbrev one : String → List String
one a = a ∷ []

abbrev two : String → String → List String
two a b = a ∷ b ∷ []

abbrev three : String → String → String → List String
three a b c = a ∷ b ∷ c ∷ []

unfoldable pub normalize_access_mode : String → String
normalize_access_mode value =
    choose ((two "r" "read", "r") ∷ (two "w" "write", "w") ∷ []) "rw" (lower_trim value)

unfoldable pub normalize_data_type : String → String
normalize_data_type value =
    choose ((one "string", "text") ∷ (one "integer", "int") ∷ []) (lower_trim value)
      (lower_trim value)

unfoldable pub normalize_severity : String → String
normalize_severity value =
    choose
      ((three "critical" "fatal" "high", "critical") ∷ (three "info" "notice" "low", "info") ∷ [])
      "warning" (lower_trim value)

-- The empty text stands for no status.
unfoldable pub normalize_alert_status : String → Option AlertStatus
normalize_alert_status value =
    let word = lower_trim value in
    if word == "new"
    then some AlertStatus.new
    else if contains word (three "ack" "acked" "acknowledged")
    then some AlertStatus.acknowledged
    else if contains word (three "resolved" "closed" "done")
    then some AlertStatus.resolved
    else none

unfoldable pub normalize_transport : String → String
normalize_transport value =
    choose
      ((two "tcp" "socket", "tcp")
        ∷ (two "http" "https", "http")
        ∷ (one "mqtt", "mqtt")
        ∷ (two "rs485" "serial", "rs485")
        ∷ (one "ethernet", "ethernet")
        ∷ (two "opcua" "opc_ua", "opcua")
        ∷ (two "bacnet" "bacnet_ip", "bacnet")
        ∷ (two "lorawan" "lora", "lorawan")
        ∷ [])
      (lower_trim value) (lower_trim value)

unfoldable pub normalize_protocol : String → String
normalize_protocol value =
    choose
      ((two "" "default", "")
        ∷ (three "tcp" "tcp_json" "json_lines", "tcp_json")
        ∷ (two "http" "http_json", "http_json")
        ∷ (two "mqtt" "mqtt_json", "mqtt_json")
        ∷ (two "modbus" "modbus_tcp", "modbus_tcp")
        ∷ (one "modbus_rtu", "modbus_rtu")
        ∷ (two "opcua" "opcua_json", "opcua_json")
        ∷ (two "bacnet" "bacnet_ip", "bacnet_ip")
        ∷ (two "lorawan" "lorawan_uplink", "lorawan_uplink")
        ∷ [])
      (lower_trim value) (lower_trim value)

unfoldable pub normalize_ingest_mode : String → String
normalize_ingest_mode value =
    choose
      ((two "" "default", "")
        ∷ (three "gateway" "gateway_tcp" "direct", "gateway_tcp")
        ∷ (two "http" "http_push", "http_push")
        ∷ (three "mqtt" "mqtt_broker" "broker_mqtt", "broker_mqtt")
        ∷ (three "bridge" "bridge_http" "webhook", "bridge_http")
        ∷ [])
      (lower_trim value) (lower_trim value)

unfoldable pub normalize_payload_format : String → String
normalize_payload_format value =
    choose
      ((two "" "default", "")
        ∷ (two "json" "json_values", "json_values")
        ∷ (two "flat" "flat_json", "flat_json")
        ∷ (two "registers" "register_map", "register_map")
        ∷ (two "mapped" "mapped_json", "mapped_json")
        ∷ [])
      (lower_trim value) (lower_trim value)

unfoldable pub normalize_auth_mode : String → String
normalize_auth_mode value =
    choose
      ((two "" "default", "")
        ∷ (two "token" "device_token", "token")
        ∷ (two "bearer" "bearer_token", "bearer_token")
        ∷ (two "bridge_secret" "secret", "bridge_secret")
        ∷ [])
      (lower_trim value) (lower_trim value)

unfoldable pub normalize_rule_operator : String → String
normalize_rule_operator value =
    choose
      ((two ">" "gt", "gt")
        ∷ (two ">=" "gte", "gte")
        ∷ (two "<" "lt", "lt")
        ∷ (two "<=" "lte", "lte")
        ∷ (three "=" "==" "eq", "eq")
        ∷ (three "!=" "<>" "neq", "neq")
        ∷ [])
      "" (lower_trim value)

unfoldable pub is_numeric_rule_operator : String → Bool
is_numeric_rule_operator value = contains value ("gt" ∷ "gte" ∷ "lt" ∷ "lte" ∷ [])

unfoldable pub is_supported_data_type : String → Bool
is_supported_data_type value =
    contains value ("int" ∷ "float" ∷ "double" ∷ "bool" ∷ "text" ∷ "enum" ∷ "object" ∷ [])

unfoldable pub normalize_rule_action_type : String → String
normalize_rule_action_type value =
    choose
      ((one "alert", "alert")
        ∷ (two "send_command" "command", "send_command")
        ∷ (three "apply_config_profile" "config" "config_profile", "apply_config_profile")
        ∷ [])
      "" (lower_trim value)
