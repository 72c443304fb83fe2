-- ===== src/Mqtt/Topics/Routes.antt =====
-- The three topics of a device.
use Prim.Native.String.{◌++◌ as ◌<>◌, ◌∷◌ as ◌::◌, [] as nil}
use text.Mathlib.TextLemmas.{append_cancel_left, cons-append, nil-append}
use getdata.Base.{
  String, ◌≡◌, ◌≢◌, refl, Option-cases, Bool-cases, subst⁻¹, some, ◌==◌, eq_iff, arith, inl, inr,
}
use getdata.Base.Text.{strip_suffix, trim_right}
use getdata.Model.{ProductAccessProfile}
use getdata.Mqtt.Topics.{Routing, resolve_routing, given_topic, with_up, before_up, is_slash}

strip_suffix-append :
    (s suffix base : String) → strip_suffix s suffix ≡ some base → s ≡ base <> suffix
unfolding strip_suffix
strip_suffix-append nil suffix base e = ground (arith, eq_iff nil suffix, nil-append suffix)
strip_suffix-append (c :: s) suffix base e = elim (Option-cases (strip_suffix s suffix)) [
  | inl h ↦ ground (arith, eq_iff (c :: s) suffix, nil-append suffix)
  | inr (b, h) ↦ ground (
    arith,
    eq_iff (c :: s) suffix,
    nil-append suffix,
    strip_suffix-append s suffix b h,
    cons-append c b suffix,
  )
]

whole : (suffix : String) → strip_suffix suffix suffix ≡ some nil
unfolding strip_suffix
whole nil = refl
whole (c :: s) = ground (arith, eq_iff (c :: s) (c :: s))

-- A text that is built with a suffix ends with it.
ends_with : (s suffix : String) → (base : String) × (strip_suffix (s <> suffix) suffix ≡ some base)
unfolding strip_suffix
ends_with nil suffix = (nil, rw nil-append (whole suffix))
ends_with (c :: s) suffix =
    let (base, e) = ends_with s suffix in
    elim (Bool-cases (c :: (s <> suffix) == suffix)) [
      | inl h ↦ (nil, rw cons-append (rw h refl))
      | inr h ↦ (c :: base, rw cons-append (rw (h, e) refl))
    ]

-- The topics of a device have one stem.
pub data IsRouted : Routing → Type 0 where
  routed :
      (base : String)
      → IsRouted (record {
        up_topic = base <> "/up";
        down_topic = base <> "/down";
        ack_topic = base <> "/ack";
      })

up_lem :
    (given : String)
    → (base : String) × (strip_suffix (with_up (strip_suffix given "/up") given) "/up" ≡ some base)
up_lem given = elim (Option-cases (strip_suffix given "/up")) [
  | inl h ↦ rw h (ends_with (trim_right is_slash given) "/up")
  | inr (b, h) ↦ rw h (b, h)
]

routed_lem :
    (topic base : String)
    → strip_suffix topic "/up" ≡ some base
    → IsRouted (record {
      up_topic = topic;
      down_topic = before_up (strip_suffix topic "/up") topic <> "/down";
      ack_topic = before_up (strip_suffix topic "/up") topic <> "/ack";
    })
routed_lem topic base e =
    subst⁻¹
      (λ t. IsRouted (record {
        up_topic = t;
        down_topic = before_up (strip_suffix topic "/up") topic <> "/down";
        ack_topic = before_up (strip_suffix topic "/up") topic <> "/ack";
      }))
      (strip_suffix-append topic "/up" base e) (rw e (routed base))

-- Whatever the profile says, the topics of a device differ in their last part only: `/up`, `/down`
-- and `/ack` on one stem.
pub resolve_routing-IsRouted :
    (profile : ProductAccessProfile) (device_id : String)
    → IsRouted (resolve_routing profile device_id)
unfolding resolve_routing
resolve_routing-IsRouted profile device_id =
    let (base, e) = up_lem (given_topic profile device_id) in routed_lem _ base e

-- No topic of a device is another of its topics.
pub record Distinct (r : Routing) : Type 0 where
  pub up_down : r.up_topic ≢ r.down_topic
  pub up_ack : r.up_topic ≢ r.ack_topic
  pub down_ack : r.down_topic ≢ r.ack_topic

pub IsRouted-Distinct : (r : Routing) → IsRouted r → Distinct r
IsRouted-Distinct _ (routed base) = record {
  up_down = λ e. ground (arith, append_cancel_left base "/up" "/down" e, eq_iff "/up" "/down");
  up_ack = λ e. ground (arith, append_cancel_left base "/up" "/ack" e, eq_iff "/up" "/ack");
  down_ack = λ e. ground (arith, append_cancel_left base "/down" "/ack" e, eq_iff "/down" "/ack");
}
