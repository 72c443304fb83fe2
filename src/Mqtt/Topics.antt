-- ===== src/Mqtt/Topics.antt =====
-- The topics of a device, and the match of a topic with a filter.
pub mod Routes
pub mod Matching
use Prim.Native.String.{◌++◌ as ◌<>◌}
use getdata.Base.{
  ℕ, String, Bool, true, false, ◌&&◌, ◌||◌, Option, none, some, List, [], ◌∷◌, ◌==◌, nat_eq,
  if◌then◌else◌,
}
use getdata.Base.Text.{
  trim_space, trim, trim_right, strip_suffix, contains_any, split_on, replace_all,
}
use getdata.Model.{ProductAccessProfile}

pub record Routing : Type 0 where
  pub up_topic : String
  pub down_topic : String
  pub ack_topic : String

abbrev pub is_slash : ℕ → Bool
is_slash c = nat_eq c 47

-- '+' and '#'
abbrev pub is_wildcard : ℕ → Bool
is_wildcard c = nat_eq c 43 || nat_eq c 35

-- The topic of the profile for this device.
unfoldable pub given_topic : ProductAccessProfile → String → String
unfolding trim_space replace_all contains_any
given_topic profile device_id =
    let topic = trim_space profile.topic in
    let topic = if topic == "" then "devices/{device_id}/up" else topic in
    let topic = replace_all topic "{device_id}" device_id in
    if contains_any topic is_wildcard then "devices/" <> device_id <> "/up" else topic

abbrev pub before_up : Option String → String → String
before_up none topic = topic
before_up (some base) topic = base

abbrev pub with_up : Option String → String → String
with_up none topic = trim_right is_slash topic <> "/up"
with_up (some base) topic = topic

-- resolveRouting
unfoldable pub resolve_routing : ProductAccessProfile → String → Routing
unfolding given_topic strip_suffix trim_right
resolve_routing profile device_id =
    let given = given_topic profile device_id in
    let topic = with_up (strip_suffix given "/up") given in
    let base = before_up (strip_suffix topic "/up") topic in
    record { up_topic = topic; down_topic = base <> "/down"; ack_topic = base <> "/ack" }

-- The loop over the parts of the filter, from an index on.
unfoldable pub match_parts : List String → List String → Bool
match_parts [] [] = true
match_parts [] (_ ∷ _) = false
match_parts (f ∷ filter) [] = f == "#"
match_parts (f ∷ filter) (t ∷ topic) =
    let rest = match_parts filter topic in
    if f == "#" then true else if f == "+" then rest else if f == t then rest else false

abbrev pub parts : String → List String
parts s = split_on 47 (trim is_slash s)

-- mqttTopicMatch
unfoldable pub mqtt_topic_match : String → String → Bool
unfolding match_parts split_on trim
mqtt_topic_match filter topic = match_parts (parts filter) (parts topic)
