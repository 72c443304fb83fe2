-- ===== src/Core/Shadows/Report.antt =====
-- What a report does to a shadow, key by key.
use getdata.Base.{String, ◌≡◌, refl, Option, none, some, [], ◌∷◌, arith, if◌then◌else◌, eq_iff}
use getdata.Base.Dict.{Dict, lookup, insert, erase, NodupKeys, lookup-insert, lookup-erase}
use getdata.Model.{Value, DeviceShadow}
use getdata.Core.Values.{values_equal}
use getdata.Core.Shadows.{report}

-- The reported value of a key: the new one, else the old one.
abbrev pub newer : Option Value → Option Value → Option Value
newer none old = old
newer (some v) old = some v

-- A wish is settled by a report of an equal value.
abbrev pub still_wanted : (Value → String) → Option Value → Option Value → Option Value
still_wanted sprint none wanted = wanted
still_wanted sprint (some v) none = none
still_wanted sprint (some v) (some w) = if values_equal sprint w v then none else some w

-- A report, whose keys are distinct as those of a Go map are, sets the reported value of each of its
-- keys and keeps the others; it removes a desired value exactly where the report has an equal value
-- at its key.
pub lookup-report :
    (sprint : Value → String) (values : Dict Value) (shadow : DeviceShadow) (k : String)
    → NodupKeys values
    → (lookup k (report sprint values shadow).reported
        ≡ newer (lookup k values) (lookup k shadow.reported))
      × (lookup k (report sprint values shadow).desired
          ≡ still_wanted sprint (lookup k values) (lookup k shadow.desired))
unfolding report lookup
lookup-report sprint [] shadow k u = (refl, refl)
lookup-report sprint ((j, v) ∷ rest) shadow k u =
    let kept : Dict Value = elim (lookup j shadow.desired) [
      | none ↦ shadow.desired
      | some w ↦ if values_equal sprint w v then erase j shadow.desired else shadow.desired
    ] in
    let next : DeviceShadow = record shadow {
      reported = insert j v shadow.reported;
      desired = kept;
    } in
    let ih = lookup-report sprint rest next k u.1 in
    (
      ground (arith, ih.0, u.0, lookup-insert k j v shadow.reported, eq_iff j k),
      ground (arith, ih.1, u.0, lookup-erase k j shadow.desired, eq_iff j k),
    )
