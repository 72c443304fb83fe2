-- ===== src/Model/Catalog/Defaults.antt =====
-- access.go: the catalogue.
use getdata.Base.{List, [], ◌∷◌}
use getdata.Model.Catalog.{ProtocolCatalogEntry}
use getdata.Model.Catalog.Direct.{tcp_json_direct, http_json_push, mqtt_json_direct, lorawan_uplink}
use getdata.Model.Catalog.Modbus.{modbus_register_map, modbus_tcp_register_map}
use getdata.Model.Catalog.Bridged.{opcua_node_map, bacnet_object_map}

-- DefaultProtocolCatalog
abbrev pub default_protocol_catalog : List ProtocolCatalogEntry
default_protocol_catalog =
    tcp_json_direct ∷ http_json_push ∷ mqtt_json_direct ∷ modbus_register_map
    ∷ modbus_tcp_register_map ∷ opcua_node_map ∷ bacnet_object_map ∷ lorawan_uplink ∷ []
