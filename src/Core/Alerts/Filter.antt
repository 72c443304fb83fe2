-- ===== src/Core/Alerts/Filter.antt =====
-- The loop that collects alerts, against taking a prefix of a filtered list.
use getdata.Base.{ℕ, zero, suc, ◌<◌, ◌≡◌, refl, Bool, List, [], ◌∷◌, arith}
use getdata.Model.{AlertEvent}
use getdata.Core.Alerts.{collect_all, collect_some}

-- The first `n` items of a list.
abbrev pub take {ℓ} : {A : Type ℓ} → ℕ → List A → List A
take zero xs = []
take (suc n) [] = []
take (suc n) (x ∷ xs) = x ∷ take n xs

-- The loop that stops early collects the first `n` of the alerts that the whole loop collects, for a
-- positive `n`.
pub collect_some-collect_all :
    (test : AlertEvent → Bool) (n : ℕ) (alerts : List AlertEvent)
    → 0 < n
    → collect_some test n alerts ≡ take n (collect_all test alerts)
unfolding collect_some collect_all
collect_some-collect_all test (suc n) [] h = refl
collect_some-collect_all test (suc zero) (a ∷ rest) h =
    ground (arith, collect_some-collect_all test 1 rest h)
collect_some-collect_all test (suc (suc n)) (a ∷ rest) h = ground (
  arith,
  collect_some-collect_all test (suc n) rest,
  collect_some-collect_all test (suc (suc n)) rest,
)
collect_some-collect_all test zero alerts h = absurd (omega arith)
