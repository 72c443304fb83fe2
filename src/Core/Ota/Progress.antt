-- ===== src/Core/Ota/Progress.antt =====
-- The progress of a campaign through the acknowledgements of its commands.
use getdata.Base.{
  ℕ, ◌+◌, ◌≤◌, ◌<◌, ◌≡◌, refl, List, [], ◌∷◌, arith, if◌then◌else◌, length, ltb, leb,
}
use getdata.Base.Words.{max_int, inc64, add64, ge64, signed, is_pos}
use getdata.Model.{Time, CommandStatus, OtaCampaign, OtaCampaignStatus}
use getdata.Core.Commands.{count_ack, progress, acknowledged}

-- The campaign after these acknowledgements, in order, each with its time.
abbrev pub after_acks : List (CommandStatus × Time) → OtaCampaign → OtaCampaign
after_acks [] c = c
after_acks ((status, now) ∷ rest) c = after_acks rest (acknowledged status now c)

abbrev pub failures : List (CommandStatus × Time) → ℕ
failures [] = 0
failures ((CommandStatus.failed, _) ∷ rest) = 1 + failures rest
failures ((_, _) ∷ rest) = failures rest

abbrev pub successes : List (CommandStatus × Time) → ℕ
successes [] = 0
successes ((CommandStatus.failed, _) ∷ rest) = successes rest
successes ((_, _) ∷ rest) = 1 + successes rest

-- The status that the numbers of a campaign ask for.
abbrev pub expected_status : ℕ → ℕ → ℕ → OtaCampaignStatus
expected_status total acked failed =
    if leb total (acked + failed)
    then (if ltb 0 failed then OtaCampaignStatus.partial else OtaCampaignStatus.completed)
    else OtaCampaignStatus.running

counted :
    (acks : List (CommandStatus × Time)) (c : OtaCampaign)
    → c.acked_count + c.failed_count + length acks ≤ max_int
    → ((after_acks acks c).acked_count ≡ c.acked_count + successes acks)
      × ((after_acks acks c).failed_count ≡ c.failed_count + failures acks)
unfolding acknowledged count_ack inc64
counted [] c h = (omega arith, omega arith)
counted ((CommandStatus.pending, now) ∷ rest) c h =
    ground (arith, counted rest (acknowledged CommandStatus.pending now c))
counted ((CommandStatus.sent, now) ∷ rest) c h =
    ground (arith, counted rest (acknowledged CommandStatus.sent now c))
counted ((CommandStatus.acked, now) ∷ rest) c h =
    ground (arith, counted rest (acknowledged CommandStatus.acked now c))
counted ((CommandStatus.failed, now) ∷ rest) c h =
    ground (arith, counted rest (acknowledged CommandStatus.failed now c))

status_now :
    (status : CommandStatus) (now : Time) (c : OtaCampaign)
    → 0 < c.total_devices
    → c.total_devices ≤ max_int
    → 0 < c.dispatched_count
    → c.dispatched_count ≤ max_int
    → c.acked_count + c.failed_count + 1 ≤ max_int
    → (acknowledged status now c).status
      ≡ expected_status c.total_devices
          (acknowledged status now c).acked_count
          (acknowledged status now c).failed_count
unfolding acknowledged count_ack progress inc64 add64 ge64 is_pos signed
status_now CommandStatus.pending now c h1 h2 h3 h4 h5 = ground arith
status_now CommandStatus.sent now c h1 h2 h3 h4 h5 = ground arith
status_now CommandStatus.acked now c h1 h2 h3 h4 h5 = ground arith
status_now CommandStatus.failed now c h1 h2 h3 h4 h5 = ground arith

-- One acknowledgement adds one to the counts and keeps the other numbers.
one_ack :
    (status : CommandStatus) (now : Time) (c : OtaCampaign)
    → c.acked_count + c.failed_count + 1 ≤ max_int
    → ((acknowledged status now c).total_devices ≡ c.total_devices)
      × ((acknowledged status now c).dispatched_count ≡ c.dispatched_count)
      × ((acknowledged status now c).acked_count + (acknowledged status now c).failed_count
          ≡ c.acked_count + c.failed_count + 1)
unfolding acknowledged count_ack inc64
one_ack CommandStatus.pending now c h = (refl, refl, omega arith)
one_ack CommandStatus.sent now c h = (refl, refl, omega arith)
one_ack CommandStatus.acked now c h = (refl, refl, omega arith)
one_ack CommandStatus.failed now c h = (refl, refl, omega arith)

-- A campaign with commands out counts, after one or more acknowledgements, one success or one failure
-- more for each of them, beside what it counted before, such as the failures at its dispatch. It is
-- running as long as successes and failures together are fewer than its devices; then it is complete
-- if there is no failure, neither at the dispatch nor acknowledged, and partial otherwise. The numbers
-- are within the positive range of `int`.
pub campaign_progress :
    (status : CommandStatus) (now : Time) (acks : List (CommandStatus × Time)) (c : OtaCampaign)
    → 0 < c.total_devices
    → c.total_devices ≤ max_int
    → 0 < c.dispatched_count
    → c.dispatched_count ≤ max_int
    → c.acked_count + c.failed_count + length ((status, now) ∷ acks) ≤ max_int
    → let done = after_acks ((status, now) ∷ acks) c in
      (done.acked_count ≡ c.acked_count + successes ((status, now) ∷ acks))
      × (done.failed_count ≡ c.failed_count + failures ((status, now) ∷ acks))
      × (done.status ≡ expected_status c.total_devices done.acked_count done.failed_count)
campaign_progress status now [] c h1 h2 h3 h4 h5 = (
  (counted ((status, now) ∷ []) c h5).0,
  (counted ((status, now) ∷ []) c h5).1,
  status_now status now c h1 h2 h3 h4 (omega arith),
)
campaign_progress status now ((next, at) ∷ acks) c h1 h2 h3 h4 h5 =
    let k = one_ack status now c (omega arith) in
    let later =
      campaign_progress next at acks (acknowledged status now c) (omega (arith, k.0))
        (omega (arith, k.0)) (omega (arith, k.1)) (omega (arith, k.1)) (omega (arith, k.2)) in
    (
      (counted ((status, now) ∷ (next, at) ∷ acks) c h5).0,
      (counted ((status, now) ∷ (next, at) ∷ acks) c h5).1,
      cc (later.2, k.0),
    )
