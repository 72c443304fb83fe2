-- ===== src/Core/Catalog.antt =====
-- service.go: ProtocolCatalog, and what the rest of the program makes of its entries.
use getdata.Base.{ℕ, ◌≡◌, refl, Bool, true, false, ◌&&◌, List, [], ◌==◌, All, Result, ok, err}
use getdata.Base.Text.{to_lower, trim_space}
use getdata.Base.Dict.{Dict}
use getdata.Model.{Time, Value, Product, ProductAccessProfile, ThingModel, to_dict, of_dict}
use getdata.Model.Catalog.{ProtocolCatalogEntry}
use getdata.Model.Catalog.Defaults.{default_protocol_catalog}
use getdata.Core.Normalize.{normalize_data_type, is_supported_data_type}
use getdata.Core.Values.{matches_thing_data_type}
use getdata.Core.Normalize.AccessProfile.{normalize_access_profile, validate_access_mappings}
use getdata.Core.Normalize.ThingModel.{normalize_thing_model}
use getdata.Core.Values.Validate.{validate_thing_values}
use getdata.Ingest.{Platform, build_values, map_source, lookup_source_value, apply_mapping}

unfoldable pub protocol_catalog : List ProtocolCatalogEntry
protocol_catalog = default_protocol_catalog

-- A product with this model and profile.
abbrev product_of : ThingModel → ProductAccessProfile → Product
product_of model profile = record {
  id = "prd";
  tenant_id = "";
  key = "";
  name = "";
  description = "";
  metadata = [];
  access_profile = profile;
  thing_model = model;
  created_at = 0;
  updated_at = 0;
}

abbrev is_ok : {A : Type 0} → Result A → Bool
is_ok (ok _) = true
is_ok (err _) = false

-- The profile has the words of its entry.
abbrev same_words : ProtocolCatalogEntry → ProductAccessProfile → Bool
same_words entry profile =
    profile.transport == entry.transport
    && profile.protocol == entry.protocol
    && profile.ingest_mode == entry.ingest_mode
    && profile.payload_format == entry.payload_format
    && profile.sensor_template == entry.sensor_template

-- The values of a payload are read, and fit the model.
abbrev takes : ThingModel → ProductAccessProfile → Result (Dict Value) → Bool
takes model profile (err _) = false
takes model profile (ok values) = is_ok (validate_thing_values (product_of model profile) values)

module _ (platform : Platform) where
  abbrev with_model : ProtocolCatalogEntry → ProductAccessProfile → Result ThingModel → Bool
  with_model entry profile (err _) = false
  with_model entry profile (ok model) =
      same_words entry profile
      && is_ok (validate_access_mappings model profile)
      && takes model profile (build_values platform entry.example_payload profile)

  abbrev with_profile :
      ProtocolCatalogEntry → Result ThingModel → Result ProductAccessProfile → Bool
  with_profile entry model (err _) = false
  with_profile entry model (ok profile) = with_model entry profile model

  -- A product can be made from the entry, and takes the entry's example.
  unfoldable pub serves : ℕ → Time → ProtocolCatalogEntry → Bool
  unfolding normalize_access_profile normalize_thing_model validate_access_mappings
      validate_thing_values build_values to_lower trim_space normalize_data_type
      is_supported_data_type to_dict of_dict matches_thing_data_type map_source lookup_source_value
      apply_mapping
  serves version now entry =
      with_profile entry (normalize_thing_model entry.thing_model version now)
        (normalize_access_profile entry.access_profile)

  -- From every entry of the catalogue a product can be made: its profile is accepted and keeps the
  -- entry's transport, protocol, ingest mode, format and template, its thing model is accepted, its
  -- mappings name properties of the model, and the values of its example payload fit the model.
  pub serves-protocol_catalog :
      (version : ℕ) (now : Time) → All (λ entry. serves version now entry ≡ true) protocol_catalog
  unfolding serves protocol_catalog
  serves-protocol_catalog version now =
      (refl, (refl, (refl, (refl, (refl, (refl, (refl, (refl, tt))))))))
