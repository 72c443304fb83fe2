-- ===== src/Core/Normalize/ThingModel/Laws.antt =====
-- What a normalised thing model promises: named items with distinct identifiers.
use getdata.Base.{
  ℕ, ◌≡◌, refl, String, Bool, true, false, List, [], ◌∷◌, contains, ok, arith, map, ◌↔◌,
  Result-cases, inl, inr,
}
use getdata.Model.{Time, ThingModel}
use getdata.Core.Normalize.ThingModel.{
  trim_property, trim_event, trim_service, normalize_each, is_property, is_event, is_service,
  normalize_thing_model,
}

-- Every item is acceptable, and its identifier is new among `seen` and the ones before it.
abbrev pub DistinctItems : {A : Type 0} → (A → Bool) → (A → String) → List String → List A → Type 0
DistinctItems acceptable identifier seen [] = Unit
DistinctItems acceptable identifier seen (a ∷ rest) =
    (acceptable a ≡ true)
    × (contains (identifier a) seen ≡ false)
    × DistinctItems acceptable identifier (identifier a ∷ seen) rest

module _ {A : Type 0} (trimmed : A → A) (acceptable : A → Bool) (identifier : A → String) where
  normalize_each_sound :
      (seen : List String) (xs ys : List A)
      → normalize_each trimmed acceptable identifier seen xs ≡ ok ys
      → (ys ≡ map trimmed xs) × DistinctItems acceptable identifier seen ys
  unfolding normalize_each
  normalize_each_sound seen [] ys h = (ground arith, ground arith)
  normalize_each_sound seen (x ∷ xs) ys h =
      elim (Result-cases
        (normalize_each trimmed acceptable identifier (identifier (trimmed x) ∷ seen) xs)) [
          | inl (e, p) ↦ ground (arith, p)
          | inr (zs, p) ↦
              ground (arith, p, normalize_each_sound (identifier (trimmed x) ∷ seen) xs zs p)
        ]

  normalize_each_complete :
      (seen : List String) (xs : List A)
      → DistinctItems acceptable identifier seen (map trimmed xs)
      → normalize_each trimmed acceptable identifier seen xs ≡ ok (map trimmed xs)
  unfolding normalize_each
  normalize_each_complete seen [] d = refl
  normalize_each_complete seen (x ∷ xs) d =
      ground (arith, normalize_each_complete (identifier (trimmed x) ∷ seen) xs d.2)

-- The model with every text trimmed and every word normalised.
abbrev pub trimmed_model : ThingModel → ℕ → Time → ThingModel
trimmed_model m version updated_at = record {
  properties = map trim_property m.properties;
  events = map trim_event m.events;
  services = map trim_service m.services;
  version = version;
  updated_at = updated_at;
}

-- In each of the three lists the items are complete and have identifiers of their own.
abbrev pub IsThingModel : ThingModel → Type 0
IsThingModel m =
    DistinctItems is_property (λ p. p.identifier) [] m.properties
    × DistinctItems is_event (λ e. e.identifier) [] m.events
    × DistinctItems is_service (λ v. v.identifier) [] m.services

-- A thing model is accepted just when, trimmed, its items are complete and their identifiers
-- distinct, and then the result is the trimmed model with the version and the time given.
pub normalize_thing_model_iff :
    (m n : ThingModel) (version : ℕ) (updated_at : Time)
    → (normalize_thing_model m version updated_at ≡ ok n) ↔ (
        (n ≡ trimmed_model m version updated_at)
        × IsThingModel (trimmed_model m version updated_at))
unfolding normalize_thing_model
normalize_thing_model_iff m n version updated_at = (
  λ h.
      elim (Result-cases
        (normalize_each trim_property is_property (λ p. p.identifier) [] m.properties)) [
          | inl (e, p) ↦ ground (arith, p)
          | inr (ps, p) ↦
              elim (Result-cases
                (normalize_each trim_event is_event (λ e. e.identifier) [] m.events)) [
                  | inl (e, q) ↦ ground (arith, p, q)
                  | inr (es, q) ↦
                      elim (Result-cases (
                        normalize_each trim_service is_service (λ v. v.identifier) [] m.services)) [
                          | inl (e, r) ↦ ground (arith, p, q, r)
                          | inr (vs, r) ↦ ground (
                            arith,
                            p,
                            q,
                            r,
                            normalize_each_sound trim_property is_property (λ p. p.identifier) []
                                m.properties ps p,
                            normalize_each_sound trim_event is_event (λ e. e.identifier) [] m.events
                                es q,
                            normalize_each_sound trim_service is_service (λ v. v.identifier) []
                                m.services vs r,
                          )
                        ]
                ]
        ],
  λ d.
      rw
        (
          normalize_each_complete trim_property is_property (λ p. p.identifier) [] m.properties
              d.1.0,
          normalize_each_complete trim_event is_event (λ e. e.identifier) [] m.events d.1.1,
          normalize_each_complete trim_service is_service (λ v. v.identifier) [] m.services d.1.2,
        )
        (cc d.0),
)
