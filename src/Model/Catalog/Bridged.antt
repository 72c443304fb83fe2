-- ===== src/Model/Catalog/Bridged.antt =====
-- access.go: the entries for values behind OPC UA and BACnet.
use getdata.Base.{true, [], ◌∷◌}
use getdata.Base.Words.{pos}
use getdata.Model.Values.{float, int, str, bool, obj, of_dict}
use getdata.Model.Catalog.{ProtocolCatalogEntry, binary, zero_float, property, mapping, model}

abbrev pub opcua_node_map : ProtocolCatalogEntry
opcua_node_map = record {
  id = "opcua-node-map";
  name = "OPC UA Node Map";
  description = "Industrial PLC and SCADA values mapped from OPC UA nodes through a bridge.";
  transport = "opcua";
  protocol = "opcua_json";
  ingest_mode = "bridge_http";
  payload_format = "mapped_json";
  sensor_template = "industrial-plc";
  example_topic = "";
  common_sensors = "plc" ∷ "energy_meter" ∷ "vibration" ∷ "temperature" ∷ [];
  thing_model =
      model
        (property "temperature" "Temperature" "float" "r"
          ∷ property "running" "Running" "bool" "r"
          ∷ [])
        ([]);
  access_profile = record {
    transport = "opcua";
    protocol = "opcua_json";
    ingest_mode = "bridge_http";
    payload_format = "mapped_json";
    auth_mode = "token";
    sensor_template = "industrial-plc";
    topic = "";
    notes = "";
    metadata = [];
    point_mappings =
        mapping "nodes.ns=2;s=Line1.Temperature" "temperature" zero_float
        ∷ mapping "nodes.ns=2;s=Line1.Running" "running" zero_float
        ∷ [];
  };
  example_payload =
      ("token", str "device_token")
      ∷ (
        "nodes",
        obj (
            of_dict (
              ("ns=2;s=Line1.Temperature", float (binary 6839841934068941 1027))
              ∷ ("ns=2;s=Line1.Running", bool true)
              ∷ [])),
      )
      ∷ [];
}

abbrev pub bacnet_object_map : ProtocolCatalogEntry
bacnet_object_map = record {
  id = "bacnet-object-map";
  name = "BACnet Object Map";
  description =
      "Building automation values mapped from BACnet objects through a bridge or gateway.";
  transport = "bacnet";
  protocol = "bacnet_ip";
  ingest_mode = "bridge_http";
  payload_format = "mapped_json";
  sensor_template = "building-hvac";
  example_topic = "";
  common_sensors = "hvac" ∷ "temperature" ∷ "humidity" ∷ "co2" ∷ [];
  thing_model =
      model
        (property "temperature" "Temperature" "float" "r"
          ∷ property "humidity" "Humidity" "float" "r"
          ∷ property "co2" "CO2" "float" "r"
          ∷ [])
        ([]);
  access_profile = record {
    transport = "bacnet";
    protocol = "bacnet_ip";
    ingest_mode = "bridge_http";
    payload_format = "mapped_json";
    auth_mode = "token";
    sensor_template = "building-hvac";
    topic = "";
    notes = "";
    metadata = [];
    point_mappings =
        mapping "objects.analogInput:1.presentValue" "temperature" zero_float
        ∷ mapping "objects.analogInput:2.presentValue" "humidity" zero_float
        ∷ mapping "objects.analogInput:3.presentValue" "co2" zero_float
        ∷ [];
  };
  example_payload =
      ("token", str "device_token")
      ∷ (
        "objects",
        obj (
            of_dict (
              ("analogInput:1.presentValue", float (binary 3574732204225331 1027))
              ∷ ("analogInput:2.presentValue", float (binary 3926575925113651 1028))
              ∷ ("analogInput:3.presentValue", int (pos 741))
              ∷ [])),
      )
      ∷ [];
}
