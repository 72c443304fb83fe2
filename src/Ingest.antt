-- ===== src/Ingest.antt =====
-- internal/ingest/resolver.go: from the decoded payload of a device to its time and its values. A
-- payload is what encoding/json decodes an object into.
pub mod Laws
pub mod Times
use getdata.Base.{
  ℕ, ◌+◌, ◌-◌, ◌*◌, ◌/◌, ◌^◌, String, Bool, true, false, ◌&&◌, ◌||◌, not, Option, none, some, List,
  [], ◌∷◌, ◌==◌, ltb, leb, nat_eq, if◌then◌else◌, contains, Result, ok, err, unnamed,
}
use getdata.Base.Dict.{Dict, lookup, insert}
use getdata.Base.Text.{trim_space, strip_prefix, cut_at}
use getdata.Base.Decimal.{parse_int}
use getdata.Base.Words.{ℤ, pos, negsuc, le_ℤ}
use getdata.Model.{
  Time, Value, Float64, null, bool, float, float32, int, uint, str, arr, obj, to_dict, nan, inf,
  neg_inf, finite, unit_scale, eq_float, lt_float, float_of_int, ProductAccessProfile,
  ProtocolPointMapping,
}

-- What Go leaves to the machine, and the parts of its library that are not modelled: the value of
-- `x*y + z`, which may be rounded once or twice, the conversion to int64 of a float64 outside the
-- range of int64, the instants of time.Unix and time.UnixMilli, strconv.ParseFloat, and time.Parse
-- of an RFC 3339 text.
pub record Platform : Type 0 where
  pub multiply_add : Float64 → Float64 → Float64 → Float64
  pub beyond_int64 : Float64 → ℤ
  pub unix : ℤ → Time
  pub unix_milli : ℤ → Time
  pub parse_float : String → Option Float64
  pub parse_time : String → Option Time

-- 1e12
abbrev pub milli_limit : ℕ
milli_limit = 10 ^ 12

-- value.(map[string]any)
abbrev pub fields_of : Value → Option (Dict Value)
fields_of (obj fields) = some (to_dict fields)
fields_of _ = none

-- lookupNestedValue
unfoldable pub lookup_nested_value : Dict Value → String → String → Option Value
unfolding lookup
lookup_nested_value payload container_key item_key = elim (lookup container_key payload) [
  | none ↦ none
  | some container ↦ elim (fields_of container) [
    | none ↦ none
    | some mapped ↦ lookup item_key mapped
  ]
]

-- The object under a key.
abbrev pub object_at : String → Dict Value → Option (Dict Value)
object_at key payload = elim (lookup key payload) [ none ↦ none | some value ↦ fields_of value ]

-- extractFirstMap: the first of the keys that holds an object.
unfoldable pub extract_first_map : Dict Value → List String → Option (Dict Value)
unfolding lookup
extract_first_map payload [] = none
extract_first_map payload (key ∷ keys) =
    let later = extract_first_map payload keys in
    elim (object_at key payload) [ none ↦ later | some mapped ↦ some mapped ]

abbrev pub reserved_payload_keys : List String
reserved_payload_keys =
    "token" ∷ "ts" ∷ "timestamp" ∷ "time" ∷ "protocol" ∷ "values" ∷ "telemetry" ∷ "properties"
    ∷ "data" ∷ "registers" ∷ "nodes" ∷ "objects" ∷ "device_id" ∷ "command_id" ∷ "status" ∷ "message"
    ∷ "type" ∷ []

-- The loop that writes every entry whose key is not in `keys`.
unfoldable pub without : List String → Dict Value → Dict Value → Dict Value
unfolding insert
without keys [] result = result
without keys ((key, value) ∷ payload) result =
    without keys payload (if contains key keys then result else insert key value result)

-- filterReservedPayloadKeys
unfoldable pub filter_reserved_payload_keys : Dict Value → Dict Value
unfolding without
filter_reserved_payload_keys payload = without reserved_payload_keys payload []

-- The first container that has the item.
unfoldable pub lookup_in_containers : Dict Value → String → List String → Option Value
unfolding lookup_nested_value
lookup_in_containers payload item_key [] = none
lookup_in_containers payload item_key (key ∷ keys) =
    let later = lookup_in_containers payload item_key keys in
    elim (lookup_nested_value payload key item_key) [ none ↦ later | some value ↦ some value ]

abbrev containers : List String
containers = "registers" ∷ "nodes" ∷ "objects" ∷ "values" ∷ "properties" ∷ "data" ∷ []

-- A source without a container: the payload's own key, or one of the containers'.
abbrev lookup_plain : Dict Value → String → Option Value
lookup_plain payload source = elim (lookup source payload) [
  | some value ↦ some value
  | none ↦ lookup_in_containers payload source containers
]

-- lookupSourceValue
unfoldable pub lookup_source_value : Dict Value → String → Option Value
unfolding lookup_nested_value lookup_in_containers lookup strip_prefix cut_at trim_space
lookup_source_value payload given =
    let source = trim_space given in
    elim (strip_prefix source "register:") [
      | some rest ↦ lookup_nested_value payload "registers" rest
      | none ↦ elim (strip_prefix source "nodes.") [
        | some rest ↦ lookup_nested_value payload "nodes" rest
        | none ↦ elim (strip_prefix source "objects.") [
          | some rest ↦ lookup_nested_value payload "objects" rest
          | none ↦ elim (strip_prefix source "values.") [
            | some rest ↦ lookup_nested_value payload "values" rest
            | none ↦ elim (cut_at 46 source) [
              | some (prefix, suffix) ↦ lookup_nested_value payload prefix suffix
              | none ↦ lookup_plain payload source
            ]
          ]
        ]
      ]
    ]

abbrev pub filled : Dict Value → Bool
filled [] = false
filled (_ ∷ _) = true

abbrev pub is_flat : ProductAccessProfile → Bool
is_flat profile =
    profile.payload_format == "flat_json"
    || profile.payload_format == ""
    || profile.protocol == "http_json"
    || profile.protocol == "mqtt_json"

abbrev pub value_keys : List String
value_keys = "values" ∷ "telemetry" ∷ "properties" ∷ "data" ∷ []

abbrev pub or_empty : Option (Dict Value) → Dict Value
or_empty none = []
or_empty (some values) = values

abbrev pub time_keys : List String
time_keys = "ts" ∷ "timestamp" ∷ "time" ∷ []

module _ (platform : Platform) where
  -- float64Value
  unfoldable pub float64_value : Value → Option Float64
  unfolding float_of_int trim_space
  float64_value (float x) = some x
  float64_value (float32 x) = some x
  float64_value (int n) = some (float_of_int n)
  float64_value (uint n) = some (float_of_int (pos n))
  float64_value (str s) = platform.parse_float (trim_space s)
  float64_value _ = none

  -- applyMapping
  unfoldable pub apply_mapping : Value → ProtocolPointMapping → Value
  unfolding float64_value eq_float
  apply_mapping value item =
      let scale =
        if eq_float item.scale (finite (pos 0)) then finite (pos unit_scale) else item.scale in
      elim (float64_value value) [
        | some numeric ↦ float (platform.multiply_add numeric scale item.offset)
        | none ↦ value
      ]

  -- What a mapping adds to the result.
  unfoldable pub map_source : ProtocolPointMapping → Option Value → Dict Value → Dict Value
  unfolding insert
  map_source item none result = result
  map_source item (some value) result = insert item.property (apply_mapping value item) result

  -- The loop of resolveMappedValues.
  unfoldable pub resolve_each : Dict Value → List ProtocolPointMapping → Dict Value → Dict Value
  resolve_each payload [] result = result
  resolve_each payload (item ∷ items) result =
      resolve_each payload items (map_source item (lookup_source_value payload item.source) result)

  -- resolveMappedValues
  unfoldable pub resolve_mapped_values : Dict Value → ProductAccessProfile → Dict Value
  unfolding resolve_each
  resolve_mapped_values payload profile = resolve_each payload profile.point_mappings []

  -- BuildValues
  unfoldable pub build_values : Dict Value → ProductAccessProfile → Result (Dict Value)
  unfolding extract_first_map resolve_mapped_values filter_reserved_payload_keys
  build_values payload profile =
      let values = or_empty (extract_first_map payload value_keys) in
      let mapped = resolve_mapped_values payload profile in
      let flat = filter_reserved_payload_keys payload in
      if filled values
      then ok values
      else if filled mapped
      then ok mapped
      else if is_flat profile && filled flat
      then ok flat
      else err (unnamed "unsupported payload shape")

  -- int64(x): towards zero.
  unfoldable pub truncated : Float64 → ℤ
  truncated (finite (pos n)) =
      let whole = n / unit_scale in
      if ltb whole (2 ^ 63) then pos whole else platform.beyond_int64 (finite (pos n))
  truncated (finite (negsuc n)) =
      let whole = (n + 1) / unit_scale in
      if leb whole (2 ^ 63)
      then (if nat_eq whole 0 then pos 0 else negsuc (whole - 1))
      else platform.beyond_int64 (finite (negsuc n))
  truncated x = platform.beyond_int64 x

  -- The instant of a number of seconds, or of milliseconds if it is that large.
  abbrev pub instant : Bool → ℤ → Time
  instant millis n = if millis then platform.unix_milli n else platform.unix n

  abbrev pub number_time : Float64 → Time
  number_time x = instant (lt_float (float_of_int (pos milli_limit)) x) (truncated x)

  abbrev pub integer_time : ℤ → Time
  integer_time n = instant (not (le_ℤ n (pos milli_limit))) n

  abbrev pub text_time : String → Option Time
  text_time raw =
      if raw == ""
      then none
      else elim (parse_int raw) [ some n ↦ some (integer_time n) | none ↦ platform.parse_time raw ]

  -- The time that a value names.
  unfoldable pub time_of : Value → Option Time
  unfolding lt_float float_of_int truncated parse_int trim_space le_ℤ
  time_of (float x) = some (number_time x)
  time_of (str s) = text_time (trim_space s)
  time_of _ = none

  -- The loop of ExtractTimestamp.
  unfoldable pub first_time : Dict Value → List String → Time → Time
  unfolding time_of lookup
  first_time payload [] fallback = fallback
  first_time payload (key ∷ keys) fallback =
      let later = first_time payload keys fallback in
      elim (lookup key payload) [
        | none ↦ later
        | some value ↦ elim (time_of value) [ none ↦ later | some at ↦ at ]
      ]

  -- ExtractTimestamp
  unfoldable pub extract_timestamp : Dict Value → Time → Time
  unfolding first_time
  extract_timestamp payload fallback = first_time payload time_keys fallback
