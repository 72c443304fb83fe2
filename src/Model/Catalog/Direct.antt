-- ===== src/Model/Catalog/Direct.antt =====
-- access.go: the entries for sensors that speak JSON to the platform, and LoRaWAN.
use getdata.Base.{[], ◌∷◌}
use getdata.Base.Words.{pos}
use getdata.Model.Values.{float, int, str, obj, of_dict}
use getdata.Model.Catalog.{ProtocolCatalogEntry, binary, property, service, model}

abbrev pub tcp_json_direct : ProtocolCatalogEntry
tcp_json_direct = record {
  id = "tcp-json-direct";
  name = "Direct TCP JSON";
  description =
      "Directly connected sensors over the built-in TCP gateway with JSON Lines payloads.";
  transport = "tcp";
  protocol = "tcp_json";
  ingest_mode = "gateway_tcp";
  payload_format = "json_values";
  sensor_template = "generic";
  example_topic = "";
  common_sensors = "temperature" ∷ "humidity" ∷ "pressure" ∷ "switch" ∷ [];
  thing_model =
      model
        (property "temperature" "Temperature" "float" "rw"
          ∷ property "humidity" "Humidity" "float" "r"
          ∷ [])
        (service "reboot" "Reboot" ∷ []);
  access_profile = record {
    transport = "tcp";
    protocol = "tcp_json";
    ingest_mode = "gateway_tcp";
    payload_format = "json_values";
    auth_mode = "token";
    sensor_template = "generic";
    topic = "";
    notes = "";
    metadata = [];
    point_mappings = [];
  };
  example_payload =
      ("type", str "telemetry")
      ∷ (
        "values",
        obj (
            of_dict (
              ("temperature", float (binary 6811694436397875 1026))
              ∷ ("humidity", int (pos 58))
              ∷ [])),
      )
      ∷ [];
}

abbrev pub http_json_push : ProtocolCatalogEntry
http_json_push = record {
  id = "http-json-push";
  name = "HTTP JSON Push";
  description = "Sensors or edge gateways push telemetry to the built-in HTTP ingest endpoint.";
  transport = "http";
  protocol = "http_json";
  ingest_mode = "http_push";
  payload_format = "json_values";
  sensor_template = "environment";
  example_topic = "";
  common_sensors = "temperature" ∷ "humidity" ∷ "battery" ∷ "co2" ∷ [];
  thing_model =
      model
        (property "temperature" "Temperature" "float" "rw"
          ∷ property "humidity" "Humidity" "float" "r"
          ∷ property "battery" "Battery" "float" "r"
          ∷ [])
        ([]);
  access_profile = record {
    transport = "http";
    protocol = "http_json";
    ingest_mode = "http_push";
    payload_format = "json_values";
    auth_mode = "token";
    sensor_template = "environment";
    topic = "";
    notes = "";
    metadata = [];
    point_mappings = [];
  };
  example_payload =
      ("token", str "device_token")
      ∷ (
        "values",
        obj (
            of_dict (
              ("temperature", float (binary 6699104445713613 1026))
              ∷ ("humidity", int (pos 54))
              ∷ ("battery", int (pos 96))
              ∷ [])),
      )
      ∷ [];
}

abbrev pub mqtt_json_direct : ProtocolCatalogEntry
mqtt_json_direct = record {
  id = "mqtt-json-direct";
  name = "MQTT JSON Direct";
  description =
      "Devices connect directly to the built-in MQTT broker and publish telemetry as JSON.";
  transport = "mqtt";
  protocol = "mqtt_json";
  ingest_mode = "broker_mqtt";
  payload_format = "json_values";
  sensor_template = "power-meter";
  example_topic = "devices/{device_id}/up";
  common_sensors = "power_meter" ∷ "energy_meter" ∷ "gateway" ∷ [];
  thing_model =
      model
        (property "voltage" "Voltage" "float" "r"
          ∷ property "current" "Current" "float" "r"
          ∷ property "power" "Power" "float" "r"
          ∷ property "energy" "Energy" "float" "r"
          ∷ [])
        ([]);
  access_profile = record {
    transport = "mqtt";
    protocol = "mqtt_json";
    ingest_mode = "broker_mqtt";
    payload_format = "json_values";
    auth_mode = "token";
    sensor_template = "power-meter";
    topic = "devices/{device_id}/up";
    notes = "";
    metadata = [];
    point_mappings = [];
  };
  example_payload =
      (
        "values",
        obj (
            of_dict (
              ("voltage", float (binary 7761672482796339 1029))
              ∷ ("current", float (binary 2308094809027379 1025))
              ∷ ("power", float (binary 3981111701851341 1032))
              ∷ ("energy", float (binary 2813292914199757 1036))
              ∷ [])),
      )
      ∷ [];
}

abbrev pub lorawan_uplink : ProtocolCatalogEntry
lorawan_uplink = record {
  id = "lorawan-uplink";
  name = "LoRaWAN Uplink";
  description = "LoRaWAN sensors forwarded by network server webhook or bridge into the platform.";
  transport = "lorawan";
  protocol = "lorawan_uplink";
  ingest_mode = "bridge_http";
  payload_format = "json_values";
  sensor_template = "battery-env";
  example_topic = "";
  common_sensors = "environment" ∷ "soil" ∷ "water-level" ∷ "tracking" ∷ [];
  thing_model =
      model
        (property "temperature" "Temperature" "float" "r"
          ∷ property "humidity" "Humidity" "float" "r"
          ∷ property "battery" "Battery" "float" "r"
          ∷ [])
        ([]);
  access_profile = record {
    transport = "lorawan";
    protocol = "lorawan_uplink";
    ingest_mode = "bridge_http";
    payload_format = "json_values";
    auth_mode = "token";
    sensor_template = "battery-env";
    topic = "";
    notes = "";
    metadata = [];
    point_mappings = [];
  };
  example_payload =
      ("token", str "device_token")
      ∷ (
        "values",
        obj (
            of_dict (
              ("temperature", float (binary 2730307274093363 1027))
              ∷ ("humidity", int (pos 67))
              ∷ ("battery", int (pos 88))
              ∷ [])),
      )
      ∷ [];
}
