-- ===== src/Model/Catalog/Modbus.antt =====
-- access.go: the entries for sensors behind Modbus registers.
use getdata.Base.{[], ◌∷◌}
use getdata.Base.Words.{pos}
use getdata.Model.Values.{int, str, obj, of_dict}
use getdata.Model.Catalog.{ProtocolCatalogEntry, binary, property, mapping, model}

abbrev pub modbus_register_map : ProtocolCatalogEntry
modbus_register_map = record {
  id = "modbus-register-map";
  name = "Modbus Register Map";
  description =
      "Common RS485 and Modbus TCP sensors mapped from holding/input registers into thing model properties.";
  transport = "rs485";
  protocol = "modbus_rtu";
  ingest_mode = "http_push";
  payload_format = "register_map";
  sensor_template = "temp-humidity-rs485";
  example_topic = "";
  common_sensors = "temp_humidity" ∷ "pressure" ∷ "level" ∷ "flow_meter" ∷ [];
  thing_model =
      model
        (property "temperature" "Temperature" "float" "r"
          ∷ property "humidity" "Humidity" "float" "r"
          ∷ [])
        ([]);
  access_profile = record {
    transport = "rs485";
    protocol = "modbus_rtu";
    ingest_mode = "http_push";
    payload_format = "register_map";
    auth_mode = "token";
    sensor_template = "temp-humidity-rs485";
    topic = "";
    notes = "";
    metadata = [];
    point_mappings =
        mapping "register:40001" "temperature" (binary 3602879701896397 1019)
        ∷ mapping "register:40002" "humidity" (binary 3602879701896397 1019)
        ∷ [];
  };
  example_payload =
      ("token", str "device_token")
      ∷ ("registers", obj (of_dict (("40001", int (pos 231)) ∷ ("40002", int (pos 550)) ∷ [])))
      ∷ [];
}

abbrev pub modbus_tcp_register_map : ProtocolCatalogEntry
modbus_tcp_register_map = record {
  id = "modbus-tcp-register-map";
  name = "Modbus TCP Register Map";
  description =
      "Ethernet-connected power meters and industrial sensors mapped from Modbus TCP registers.";
  transport = "ethernet";
  protocol = "modbus_tcp";
  ingest_mode = "http_push";
  payload_format = "register_map";
  sensor_template = "power-meter";
  example_topic = "";
  common_sensors = "power_meter" ∷ "energy_meter" ∷ "pressure" ∷ "flow_meter" ∷ [];
  thing_model =
      model
        (property "voltage" "Voltage" "float" "r"
          ∷ property "current" "Current" "float" "r"
          ∷ property "power" "Power" "float" "r"
          ∷ property "energy" "Energy" "float" "r"
          ∷ [])
        ([]);
  access_profile = record {
    transport = "ethernet";
    protocol = "modbus_tcp";
    ingest_mode = "http_push";
    payload_format = "register_map";
    auth_mode = "token";
    sensor_template = "power-meter";
    topic = "";
    notes = "";
    metadata = [];
    point_mappings =
        mapping "register:30001" "voltage" (binary 3602879701896397 1019)
        ∷ mapping "register:30002" "current" (binary 5764607523034235 1015)
        ∷ mapping "register:30003" "power" (binary 3602879701896397 1019)
        ∷ mapping "register:30004" "energy" (binary 3602879701896397 1019)
        ∷ [];
  };
  example_payload =
      ("token", str "device_token")
      ∷ (
        "registers",
        obj (
            of_dict (
              ("30001", int (pos 2214))
              ∷ ("30002", int (pos 418))
              ∷ ("30003", int (pos 9231))
              ∷ ("30004", int (pos 120450))
              ∷ [])),
      )
      ∷ [];
}
