-- ===== src/Core/Sessions/Online.antt =====
-- The gauge of online devices is the number of devices that have a session.
use getdata.Base.{ℕ, ◌+◌, ◌%◌, ◌≤◌, String, ◌≡◌, Bool, true, false, [], ◌∷◌, arith}
use getdata.Base.Dict.{Dict, insert}
use getdata.Base.Words.{word_mod, inc64, dec64}
use getdata.Model.{Time}
use getdata.Core.State.{Session, DeviceState, Service, state_of}
use getdata.Core.Sessions.{
  on_line, opened, ended, register_at, unregister_at, touched, touch_device,
}

abbrev one_if : Bool → ℕ
one_if true = 1
one_if false = 0

-- The devices that have a session.
abbrev pub count_online : Dict DeviceState → ℕ
count_online [] = 0
count_online ((_, d) ∷ m) = one_if (on_line d.session) + count_online m

pub record IsCounted (s : Service) : Type 0 where
  pub counted : s.counters.online_devices ≡ count_online s.states % word_mod

-- A write moves the count by the difference of the two states.
count_online-insert :
    (k : String) (d : DeviceState) (m : Dict DeviceState)
    → count_online (insert k d m) + one_if (on_line (state_of k m).session)
      ≡ count_online m + one_if (on_line d.session)
unfolding insert state_of
count_online-insert k d [] = omega arith
count_online-insert k d ((j, e) ∷ m) = ground (arith, count_online-insert k d m)

pub register-IsCounted :
    (now : Time) (device_id : String) (session : Session) (s : Service)
    → IsCounted s
    → IsCounted (register_at now device_id session s)
unfolding register_at inc64
register-IsCounted now device_id session s v = record {
  counted = ground (arith, v.counted, count_online-insert device_id (opened now session) s.states);
}

count_online-ge :
    (k : String) (m : Dict DeviceState) → one_if (on_line (state_of k m).session) ≤ count_online m
unfolding state_of
count_online-ge k [] = omega arith
count_online-ge k ((j, e) ∷ m) = ground (arith, count_online-ge k m)

pub unregister-IsCounted :
    (now : Time) (device_id session_id : String) (s : Service)
    → IsCounted s
    → IsCounted (unregister_at now device_id session_id s)
unfolding unregister_at dec64
unregister-IsCounted now device_id session_id s v = record {
  counted = ground (
    arith,
    v.counted,
    count_online-ge device_id s.states,
    count_online-insert device_id (ended now (state_of device_id s.states)) s.states,
  );
}

pub touch-IsCounted :
    (device_id : String) (at : Time) (s : Service)
    → IsCounted s
    → IsCounted (touch_device device_id at s)
unfolding touch_device
touch-IsCounted device_id at s v = record {
  counted = ground (
    arith,
    v.counted,
    count_online-insert device_id (touched at (state_of device_id s.states)) s.states,
  );
}
