-- ===== src/Mqtt/Topics/Matching.antt =====
-- The loop of mqttTopicMatch against the rules of MQTT filters.
use getdata.Base.{
  String, ◌≡◌, refl, subst, Bool-cases, inl, inr, true, List, [], ◌∷◌, ◌==◌, eq_iff, ◌↔◌, arith,
}
use getdata.Mqtt.Topics.{match_parts, mqtt_topic_match, parts}

-- A filter covers a topic: `+` stands for any one part, and `#` for all that are left.
pub data Covers : List String → List String → Type 0 where
  done : Covers [] []
  all : {filter topic : List String} → Covers ("#" ∷ filter) topic
  any :
      {t : String} {filter topic : List String}
      → Covers filter topic
      → Covers ("+" ∷ filter) (t ∷ topic)
  same :
      {t : String} {filter topic : List String}
      → Covers filter topic
      → Covers (t ∷ filter) (t ∷ topic)

Covers-match : {filter topic : List String} → Covers filter topic → match_parts filter topic ≡ true
unfolding match_parts
Covers-match done = refl
Covers-match {topic = []} all = refl
Covers-match {topic = _ ∷ _} all = refl
Covers-match (any c) = Covers-match c
Covers-match {filter = t ∷ _} (same c) = ground (arith, Covers-match c, eq_iff t t)

text_eq : (a b : String) → (a == b) ≡ true → b ≡ a
text_eq a b h = ground (arith, eq_iff a b)

Covers-hash :
    (f : String) (filter topic : List String) → (f == "#") ≡ true → Covers (f ∷ filter) topic
Covers-hash f filter topic h = subst (λ x. Covers (x ∷ filter) topic) (text_eq f "#" h) all

Covers-plus :
    (f t : String) (filter topic : List String)
    → (f == "+") ≡ true
    → Covers filter topic
    → Covers (f ∷ filter) (t ∷ topic)
Covers-plus f t filter topic h c =
    subst (λ x. Covers (x ∷ filter) (t ∷ topic)) (text_eq f "+" h) (any c)

Covers-same :
    (f t : String) (filter topic : List String)
    → (f == t) ≡ true
    → Covers filter topic
    → Covers (f ∷ filter) (t ∷ topic)
Covers-same f t filter topic h c =
    subst (λ x. Covers (x ∷ filter) (t ∷ topic)) (text_eq f t h) (same c)

match-Covers : (filter topic : List String) → match_parts filter topic ≡ true → Covers filter topic
unfolding match_parts
match-Covers [] [] h = done
match-Covers [] (_ ∷ _) h = absurd (ground arith)
match-Covers (f ∷ filter) [] h = Covers-hash f filter [] h
match-Covers (f ∷ filter) (t ∷ topic) h = elim (Bool-cases (f == "#")) [
  | inl p ↦ Covers-hash f filter (t ∷ topic) p
  | inr p ↦
      let rest = match-Covers filter topic (ground arith) in
      elim (Bool-cases (f == "+")) [
        | inl q ↦ Covers-plus f t filter topic q rest
        | inr q ↦ Covers-same f t filter topic (ground arith) rest
      ]
]

-- The loop accepts a topic exactly if the filter covers its parts.
pub mqtt_topic_match_iff :
    (filter topic : String)
    → (mqtt_topic_match filter topic ≡ true) ↔ Covers (parts filter) (parts topic)
unfolding mqtt_topic_match
mqtt_topic_match_iff filter topic = (match-Covers (parts filter) (parts topic), Covers-match)

Covers-refl : (xs : List String) → Covers xs xs
Covers-refl [] = done
Covers-refl (x ∷ xs) = same (Covers-refl xs)

-- A topic is a filter of itself.
pub mqtt_topic_match_refl : (topic : String) → mqtt_topic_match topic topic ≡ true
unfolding mqtt_topic_match
mqtt_topic_match_refl topic = Covers-match (Covers-refl (parts topic))
