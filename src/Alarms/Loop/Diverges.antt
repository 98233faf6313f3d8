-- ===== src/Alarms/Loop/Diverges.antt =====
-- epoll_server.cc: alarms that set themselves while they are called.
use cmuquic.Prelude.{ℕ, ◌≡◌, true, [], ◌∷◌}
use cmuquic.Prelude.Int.{ℤ, pos}
use cmuquic.Alarms.Data.{Timer, EpollAlarm, Alarms, Firing, returns, sets}

-- A server with one alarm, which is registered.
abbrev pub lone : {W : Type 0} → ℕ → Timer → ℕ → (ℕ → EpollAlarm) → W → Alarms W
lone q t n objects w = record {
  world = w;
  alarm_map = (q, t) ∷ [];
  all_alarms = t.cb ∷ [];
  skipped = [];
  next_token = n;
  objects = objects;
}

module _ {W : Type 0} (host : W → ℕ → Firing W) (now : ℤ) (a : ℕ) (time : ℤ) where
  -- The alarm sets itself to a time, and returns 0.
  abbrev pub SetsItself : Type 0
  SetsItself = (w : W) → host w a ≡ sets a time w (returns (pos 0))

  -- The alarm in its next registration.
  abbrev reset : Timer
  reset = record { time = time; cb = a }

  abbrev registered_at : ℕ → ℕ → EpollAlarm
  registered_at n b = record { registered = true; token = n; attached = true }
