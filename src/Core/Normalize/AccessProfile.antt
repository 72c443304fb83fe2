-- ===== src/Core/Normalize/AccessProfile.antt =====
-- service.go: normalizeAccessProfile and validateAccessMappings.
use getdata.Base.{
  String, Bool, false, ◌||◌, List, [], ◌∷◌, ◌==◌, contains, if◌then◌else◌, Result, ok, err, ◌>>=◌,
  ◌>>◌, invalid_product,
}
use getdata.Base.Text.{trim_space, to_lower}
use getdata.Model.{ProductAccessProfile, ProtocolPointMapping, ThingModel, ThingModelProperty}
use getdata.Model.Values.{Float64, eq_float, float_of_int}
use getdata.Base.Words.{pos}
use getdata.Store.Clone.{clone_string_map}
use getdata.Core.Normalize.{
  normalize_transport, normalize_protocol, normalize_ingest_mode, normalize_payload_format,
  normalize_auth_mode,
}

abbrev or_default : String → String → String
or_default value default = if value == "" then default else value

-- The protocol that follows from the ingest mode and the transport.
abbrev default_protocol : String → String → String
default_protocol ingest_mode transport =
    if ingest_mode == "http_push"
    then "http_json"
    else if contains ingest_mode ("bridge_http" ∷ "broker_mqtt" ∷ []) || transport == "mqtt"
    then "mqtt_json"
    else if transport == "http"
    then "http_json"
    else "tcp_json"

abbrev default_transport : String → String
default_transport protocol =
    if protocol == "http_json"
    then "http"
    else if protocol == "mqtt_json"
    then "mqtt"
    else if protocol == "modbus_tcp"
    then "ethernet"
    else if protocol == "modbus_rtu"
    then "rs485"
    else if protocol == "opcua_json"
    then "opcua"
    else if protocol == "bacnet_ip"
    then "bacnet"
    else if protocol == "lorawan_uplink"
    then "lorawan"
    else "tcp"

abbrev default_ingest_mode : String → String
default_ingest_mode protocol =
    if protocol == "tcp_json"
    then "gateway_tcp"
    else if contains protocol ("http_json" ∷ "modbus_tcp" ∷ "modbus_rtu" ∷ [])
    then "http_push"
    else if protocol == "mqtt_json"
    then "broker_mqtt"
    else "bridge_http"

abbrev default_payload_format : String → String
default_payload_format protocol =
    if contains protocol ("modbus_tcp" ∷ "modbus_rtu" ∷ []) then "register_map" else "json_values"

-- The words of a profile, with a default for each that is empty.
unfoldable pub fill_profile : ProductAccessProfile → ProductAccessProfile
unfolding normalize_transport normalize_protocol normalize_ingest_mode normalize_payload_format
    normalize_auth_mode
fill_profile p =
    let ingest_mode = normalize_ingest_mode p.ingest_mode in
    let transport = normalize_transport p.transport in
    let protocol =
      or_default (normalize_protocol p.protocol) (default_protocol ingest_mode transport) in
    record p {
      transport = or_default transport (default_transport protocol);
      protocol = protocol;
      ingest_mode = or_default ingest_mode (default_ingest_mode protocol);
      payload_format =
          or_default (normalize_payload_format p.payload_format) (default_payload_format protocol);
      auth_mode = or_default (normalize_auth_mode p.auth_mode) "token";
      sensor_template = trim_space (to_lower p.sensor_template);
      topic = trim_space p.topic;
      notes = trim_space p.notes;
      metadata = clone_string_map p.metadata;
    }

abbrev zero_float : Float64
zero_float = float_of_int (pos 0)

unfoldable pub normalize_mapping : ProtocolPointMapping → ProtocolPointMapping
normalize_mapping item = record item {
  source = trim_space item.source;
  property = trim_space item.property;
  unit = trim_space item.unit;
  scale = if eq_float item.scale zero_float then float_of_int (pos 1) else item.scale;
}

unfoldable pub normalize_mappings : List ProtocolPointMapping → Result (List ProtocolPointMapping)
unfolding normalize_mapping
normalize_mappings [] = ok []
normalize_mappings (m ∷ rest) =
    let item = normalize_mapping m in
    let others = normalize_mappings rest in
    if item.source == "" || item.property == ""
    then err invalid_product
    else others >>= λ items. ok (item ∷ items)

abbrev has_empty_word : ProductAccessProfile → Bool
has_empty_word p =
    p.protocol == ""
    || p.transport == ""
    || p.ingest_mode == ""
    || p.payload_format == ""
    || p.auth_mode == ""

abbrev refuse_if : Bool → Result (Unit {0})
refuse_if b = if b then err invalid_product else ok tt

unfoldable pub normalize_access_profile : ProductAccessProfile → Result ProductAccessProfile
unfolding fill_profile normalize_mappings
normalize_access_profile profile = do
  refuse_if (has_empty_word (fill_profile profile))
  mappings ← normalize_mappings profile.point_mappings
  ok (record (fill_profile profile) { point_mappings = mappings })

unfoldable pub has_identifier : String → List ThingModelProperty → Bool
has_identifier name [] = false
has_identifier name (p ∷ rest) = p.identifier == name || has_identifier name rest

unfoldable pub check_mappings :
    List ThingModelProperty → List ProtocolPointMapping → Result (Unit {0})
unfolding has_identifier
check_mappings properties [] = ok tt
check_mappings properties (m ∷ rest) =
    let others = check_mappings properties rest in
    if has_identifier m.property properties then others else err invalid_product

unfoldable pub validate_access_mappings : ThingModel → ProductAccessProfile → Result (Unit {0})
unfolding check_mappings
validate_access_mappings model profile = elim model.properties [
  | [] ↦ ok tt
  | p ∷ rest ↦ check_mappings (p ∷ rest) profile.point_mappings
]
