-- ===== src/Model/Catalog.antt =====
-- internal/model/access.go: an entry of the catalogue of protocols, and what its entries
-- are made of: fields that the source leaves out have their zero values.
pub mod Direct
pub mod Modbus
pub mod Bridged
pub mod Defaults
use getdata.Base.{ℕ, ◌*◌, ◌^◌, String, true, false, List, [], ◌∷◌}
use getdata.Base.Dict.{Dict}
use getdata.Base.Words.{pos}
use getdata.Model.Values.{Value, Float64, finite, float, int, str, bool, obj, of_dict}
use getdata.Model.Types.{
  ThingModel, ThingModelProperty, ThingModelService, ProductAccessProfile, ProtocolPointMapping,
}

pub record ProtocolCatalogEntry : Type 0 where
  pub id : String
  pub name : String
  pub description : String
  pub transport : String
  pub protocol : String
  pub ingest_mode : String
  pub payload_format : String
  pub sensor_template : String
  pub example_topic : String
  pub common_sensors : List String
  pub thing_model : ThingModel
  pub access_profile : ProductAccessProfile
  pub example_payload : Dict Value

-- n * 2 ^ (k - 1074)
abbrev pub binary : ℕ → ℕ → Float64
binary n k = finite (pos (n * 2 ^ k))

abbrev pub zero_float : Float64
zero_float = finite (pos 0)

abbrev pub property : String → String → String → String → ThingModelProperty
property identifier name data_type access_mode = record {
  identifier = identifier;
  name = name;
  data_type = data_type;
  access_mode = access_mode;
  required = false;
  description = "";
}

abbrev pub mapping : String → String → Float64 → ProtocolPointMapping
mapping source property scale = record {
  source = source;
  property = property;
  scale = scale;
  offset = zero_float;
  unit = "";
}

abbrev pub service : String → String → ThingModelService
service identifier name = record {
  identifier = identifier;
  name = name;
  input = [];
  output = [];
  description = "";
}

abbrev pub model : List ThingModelProperty → List ThingModelService → ThingModel
model properties services = record {
  properties = properties;
  events = [];
  services = services;
  version = 0;
  updated_at = 0;
}
