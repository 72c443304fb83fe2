-- ===== src/Ingest/Laws.antt =====
-- What reaches the service of a payload.
use getdata.Base.{
  ◌≡◌, ◌∙◌, ◌&&◌, Error, unnamed, refl, String, Bool, true, Option, none, some, List, [], ◌∷◌, ◌==◌,
  if◌then◌else◌, contains, arith, eq_iff, ok, err,
}
use getdata.Base.Dict.{Dict, lookup, insert, lookup-insert, NodupKeys}
use getdata.Model.{Value, ProductAccessProfile, ProtocolPointMapping}
use getdata.Ingest.{
  Platform, without, filter_reserved_payload_keys, reserved_payload_keys, lookup_source_value,
  apply_mapping, map_source, is_flat, or_empty, extract_first_map, value_keys, resolve_each,
  resolve_mapped_values, build_values, filled,
}

lookup-without :
    (keys : List String) (k : String) (payload result : Dict Value)
    → NodupKeys payload
    → lookup k (without keys payload result) ≡ (
        if contains k keys
        then lookup k result
        else elim (lookup k payload) [ none ↦ lookup k result | some v ↦ some v ])
unfolding without lookup
lookup-without keys k [] result u = ground arith
lookup-without keys k ((j, v) ∷ payload) result (fresh, u) = ground (
  arith,
  lookup-without keys k payload result u,
  lookup-without keys k payload (insert j v result) u,
  lookup-insert k j v result,
  eq_iff j k,
)

lookup-without_nil :
    (keys : List String) (k : String) (payload : Dict Value)
    → NodupKeys payload
    → lookup k (without keys payload []) ≡ (if contains k keys then none else lookup k payload)
unfolding lookup
lookup-without_nil keys k payload u = ground (arith, lookup-without keys k payload [] u)

-- Of a flat payload the reserved keys are dropped, and every other entry is kept as it is. A decoded
-- object has no key twice.
lookup-filter_reserved :
    (k : String) (payload : Dict Value)
    → NodupKeys payload
    → lookup k (filter_reserved_payload_keys payload)
      ≡ (if contains k reserved_payload_keys then none else lookup k payload)
unfolding filter_reserved_payload_keys
lookup-filter_reserved k payload u = lookup-without_nil reserved_payload_keys k payload u

module _ (platform : Platform) where
  -- The value that a mapping gives a property, if it is one of that property.
  abbrev mapped_to : String → ProtocolPointMapping → Option Value → Option Value
  mapped_to property item none = none
  mapped_to property item (some value) =
      if item.property == property then some (apply_mapping platform value item) else none

  abbrev or_else : Option Value → Option Value → Option Value
  or_else none other = other
  or_else (some value) other = some value

  -- The value that the last mapping of a property with a source in the payload gives it.
  pub last_mapped : Dict Value → String → List ProtocolPointMapping → Option Value
  last_mapped payload property [] = none
  last_mapped payload property (item ∷ items) =
      or_else (last_mapped payload property items)
        (mapped_to property item (lookup_source_value payload item.source))

  lookup-map_source :
      (property : String) (item : ProtocolPointMapping) (source : Option Value)
      (result : Dict Value)
      → lookup property (map_source platform item source result)
        ≡ or_else (mapped_to property item source) (lookup property result)
  unfolding map_source
  lookup-map_source property item none result = refl
  lookup-map_source property item (some value) result =
      ground
        (arith, lookup-insert property item.property (apply_mapping platform value item) result)

  or_else_assoc : (a b c : Option Value) → or_else a (or_else b c) ≡ or_else (or_else a b) c
  or_else_assoc none b c = refl
  or_else_assoc (some a) b c = refl

  or_else-none : (a : Option Value) → or_else a none ≡ a
  or_else-none none = refl
  or_else-none (some a) = refl

  lookup-resolve_each :
      (payload : Dict Value) (property : String) (items : List ProtocolPointMapping)
      (result : Dict Value)
      → lookup property (resolve_each platform payload items result)
        ≡ or_else (last_mapped payload property items) (lookup property result)
  unfolding resolve_each last_mapped
  lookup-resolve_each payload property [] result = refl
  lookup-resolve_each payload property (item ∷ items) result =
      rw (lookup-resolve_each payload property items, lookup-map_source, or_else_assoc) refl

  -- A property has the value of its last mapping whose source the payload has, and no value if there
  -- is none.
  pub lookup-resolve :
      (payload : Dict Value) (profile : ProductAccessProfile) (property : String)
      → lookup property (resolve_mapped_values platform payload profile)
        ≡ last_mapped payload property profile.point_mappings
  unfolding resolve_mapped_values lookup
  lookup-resolve payload profile property =
      lookup-resolve_each payload property profile.point_mappings [] ∙ or_else-none _

  chosen_filled :
      (values mapped flat m : Dict Value) (b : Bool) (e : Error)
      → (if filled values
          then ok values
          else if filled mapped
          then ok mapped
          else if b && filled flat
          then ok flat
          else err e)
        ≡ ok m
      → filled m ≡ true
  chosen_filled values mapped flat m b e h = ground arith

  -- A payload that is taken gives at least one value.
  pub build_values-filled :
      (payload : Dict Value) (profile : ProductAccessProfile) (m : Dict Value)
      → build_values platform payload profile ≡ ok m
      → filled m ≡ true
  unfolding build_values
  build_values-filled payload profile m h =
      chosen_filled (or_empty (extract_first_map payload value_keys))
        (resolve_mapped_values platform payload profile) (filter_reserved_payload_keys payload) m
        (is_flat profile) (unnamed "unsupported payload shape") h
