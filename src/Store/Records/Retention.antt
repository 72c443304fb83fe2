-- ===== src/Store/Records/Retention.antt =====
-- What is kept of telemetry and alerts: exactly the newest ones, up to the retention.
use Prim.Native.Nat.{min}
use mathlib.Core.List.{append-nil, append_assoc}
use getdata.Base.{
  ℕ, Bool-cases, inl, inr, ◌-◌, ◌≡◌, refl, sym, ◌∙◌, String, List, [], ◌∷◌, ◌++◌, arith, ◌==◌,
  eq_iff, ltb, length, reversed, take_last, take_last-append, length-drop, drop-drop, drop-nil,
  if◌then◌else◌,
}
use getdata.Base.Words.{ℤ, is_pos, to_ℕ}
use getdata.Model.{Telemetry, AlertEvent}
use getdata.Store.{Store, new, list_at, list_at-insert}
use getdata.Store.Clone.{copy_each, clone_telemetry, clone_alert}
use getdata.Store.Clone.Laws.{clone_telemetry-id, clone_alert-id, copy_each-id}
use getdata.Store.Records.{
  cut, selected, append_telemetry, list_telemetry_by_device, append_alert, list_alerts,
}

-- How many items a listing with a limit shows of a list that is kept to `n` items.
abbrev pub shown : ℤ → ℕ → ℕ
shown limit n = if is_pos limit then min (to_ℕ limit) n else n

module _ {ℓ} {A : Type ℓ} where
  cut-eq-take_last : (n : ℕ) (xs : List A) → cut n xs ≡ take_last n xs
  unfolding cut
  cut-eq-take_last n xs = elim (Bool-cases (ltb n (length xs))) [
    | inl more ↦ rw more refl
    | inr fits ↦ let e : length xs - n ≡ 0 = ground arith in rw (fits, e) refl
  ]

  selected-take_last :
      (limit : ℤ) (n : ℕ) (xs : List A)
      → selected limit (take_last n xs) ≡ take_last (shown limit n) xs
  unfolding selected
  selected-take_last limit n xs =
      drop-drop _ (length xs - n) (length xs - shown limit n) xs
        (ground (arith, length-drop (length xs - n) xs))

-- Telemetry reports in the order in which they came.
pub append_all : List Telemetry → Store → Store
append_all [] s = s
append_all (t ∷ ts) s = append_all ts (append_telemetry t s)

-- The reports of one device.
abbrev pub of_device : String → List Telemetry → List Telemetry
of_device d [] = []
of_device d (t ∷ ts) = if t.device_id == d then t ∷ of_device d ts else of_device d ts

abbrev kept : String → Store → List Telemetry
kept d s = list_at d s.telemetry_by_device

kept-append :
    (d : String) (t : Telemetry) (s : Store)
    → kept d (append_telemetry t s) ≡ (
        if t.device_id == d
        then take_last s.telemetry_retention (kept d s ++ (t ∷ []))
        else kept d s)
unfolding append_telemetry
kept-append d t s = ground (
  arith,
  clone_telemetry-id t,
  cut-eq-take_last s.telemetry_retention (kept d s ++ (t ∷ [])),
  list_at-insert d t.device_id (cut s.telemetry_retention (kept t.device_id s ++ (t ∷ [])))
      s.telemetry_by_device,
  eq_iff t.device_id d,
)

kept-new : (d : String) (r : ℤ) (n : ℕ) → kept d (new r) ≡ take_last n []
unfolding new list_at
kept-new d r n = sym (drop-nil _)

retention-append :
    (t : Telemetry) (s : Store) → (append_telemetry t s).telemetry_retention ≡ s.telemetry_retention
unfolding append_telemetry
retention-append t s = refl

-- One report, against the history so far.
kept-step :
    (d : String) (n : ℕ) (t : Telemetry) (s : Store) (past : List Telemetry)
    → s.telemetry_retention ≡ n
    → kept d s ≡ take_last n past
    → kept d (append_telemetry t s) ≡ take_last n (past ++ of_device d (t ∷ []))
kept-step d n t s past e h = elim (Bool-cases (t.device_id == d)) [
  | inl same ↦ kept-append d t s ∙ rw (same, e, h) (take_last-append n past (t ∷ []))
  | inr other ↦ kept-append d t s ∙ rw (other, append-nil) h
]

of_device-cons :
    (d : String) (t : Telemetry) (ts past : List Telemetry)
    → (past ++ of_device d (t ∷ [])) ++ of_device d ts ≡ past ++ of_device d (t ∷ ts)
of_device-cons d t ts past = elim (Bool-cases (t.device_id == d)) [
  | inl same ↦ rw same (append_assoc past (t ∷ []) (of_device d ts))
  | inr other ↦ rw (other, append-nil) refl
]

kept-append_all :
    (d : String) (n : ℕ) (ts : List Telemetry) (s : Store) (past : List Telemetry)
    → s.telemetry_retention ≡ n
    → kept d s ≡ take_last n past
    → kept d (append_all ts s) ≡ take_last n (past ++ of_device d ts)
unfolding append_all
kept-append_all d n [] s past e h = rw append-nil h
kept-append_all d n (t ∷ ts) s past e h = rw (← of_device-cons d t ts past) (
    kept-append_all d n ts (append_telemetry t s) (past ++ of_device d (t ∷ []))
      (retention-append t s ∙ e) (kept-step d n t s past e h))

copy_each-telemetry : (ts : List Telemetry) → copy_each clone_telemetry ts ≡ ts
copy_each-telemetry = copy_each-id clone_telemetry clone_telemetry-id

-- A listing shows exactly the newest reports of the device, newest first, up to the limit and the
-- retention, whatever was reported before and for other devices.
pub list-append_all :
    (d : String) (limit r : ℤ) (ts : List Telemetry)
    → list_telemetry_by_device d limit (append_all ts (new r))
      ≡ reversed (take_last (shown limit (new r).telemetry_retention) (of_device d ts))
unfolding list_telemetry_by_device
list-append_all d limit r ts =
    rw
      (
        copy_each-telemetry,
        kept-append_all d (new r).telemetry_retention ts (new r) [] refl (kept-new d r _),
      )
      (rw selected-take_last refl)

-- Alerts in the order in which they were raised.
pub append_alerts : List AlertEvent → Store → Store
append_alerts [] s = s
append_alerts (a ∷ rest) s = append_alerts rest (append_alert a s)

alerts-append :
    (a : AlertEvent) (s : Store)
    → (append_alert a s).alerts ≡ take_last s.alert_retention (s.alerts ++ (a ∷ []))
unfolding append_alert
alerts-append a s = rw clone_alert-id (cut-eq-take_last s.alert_retention (s.alerts ++ (a ∷ [])))

alert_retention-append :
    (a : AlertEvent) (s : Store) → (append_alert a s).alert_retention ≡ s.alert_retention
unfolding append_alert
alert_retention-append a s = refl

alerts-new : (r : ℤ) (n : ℕ) → (new r).alerts ≡ take_last n []
unfolding new
alerts-new r n = sym (drop-nil _)

alerts-append_all :
    (n : ℕ) (rest : List AlertEvent) (s : Store) (past : List AlertEvent)
    → s.alert_retention ≡ n
    → s.alerts ≡ take_last n past
    → (append_alerts rest s).alerts ≡ take_last n (past ++ rest)
unfolding append_alerts
alerts-append_all n [] s past e h = rw append-nil h
alerts-append_all n (a ∷ rest) s past e h = rw (← append_assoc past (a ∷ []) rest) (
    alerts-append_all n rest (append_alert a s) (past ++ (a ∷ [])) (alert_retention-append a s ∙ e)
      (alerts-append a s ∙ rw (e, h) (take_last-append n past (a ∷ []))))

copy_each-alert : (xs : List AlertEvent) → copy_each clone_alert xs ≡ xs
copy_each-alert = copy_each-id clone_alert clone_alert-id

-- The list of alerts shows exactly the newest ones, newest first, up to the limit and the retention.
pub list_alerts-append_alerts :
    (limit r : ℤ) (raised : List AlertEvent)
    → list_alerts limit (append_alerts raised (new r))
      ≡ reversed (take_last (shown limit (new r).alert_retention) raised)
unfolding list_alerts
list_alerts-append_alerts limit r raised =
    rw
      (
        copy_each-alert,
        alerts-append_all (new r).alert_retention raised (new r) [] refl (alerts-new r _),
      )
      (rw selected-take_last refl)
