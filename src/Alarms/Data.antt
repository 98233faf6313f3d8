-- ===== src/Alarms/Data.antt =====
-- The alarms of epoll_server.{h,cc}: their map, and `EpollAlarm`.
pub mod Timers
use cmuquic.Prelude.{ℕ, Bool, true, false, Option, none, some, List, [], ◌∷◌, ◌==◌, if◌then◌else◌}
use cmuquic.Prelude.Int.{ℤ, ltb_ℤ}

-- An entry of the multimap: a time in microseconds, and the address of a callback. The iterator of
-- an entry, which is its token, is a number that no other entry has had.
pub record Timer : Type 0 where
  pub time : ℤ
  pub cb : ℕ

-- `insert` of the multimap: behind the entries of the same time.
unfoldable pub place : ℕ → Timer → List (ℕ × Timer) → List (ℕ × Timer)
place q t [] = (q, t) ∷ []
place q t ((p, u) ∷ m) = if ltb_ℤ t.time u.time then (q, t) ∷ (p, u) ∷ m else (p, u) ∷ place q t m

-- `begin` of the multimap, and the iterator after one; `none` is `end`.
unfoldable pub first : List (ℕ × Timer) → Option ℕ
first [] = none
first ((p, u) ∷ m) = some p

unfoldable pub next_of : ℕ → List (ℕ × Timer) → Option ℕ
next_of q [] = none
next_of q ((p, u) ∷ m) = if p == q then first m else next_of q m

-- `EpollAlarm`: its members; `attached` is whether it has its server.
pub record EpollAlarm : Type 0 where
  pub registered : Bool
  pub token : ℕ
  pub attached : Bool

-- The constructor.
unfoldable pub new_alarm : EpollAlarm
new_alarm = record { registered = false; token = 0; attached = false }

-- `EpollAlarm::OnAlarm`.
unfoldable pub on_alarm : EpollAlarm → EpollAlarm
on_alarm a = record a { registered = false }

-- `EpollAlarm::OnRegistration`.
unfoldable pub on_registration : ℕ → EpollAlarm → EpollAlarm
on_registration token a = record { registered = true; token = token; attached = true }

-- `EpollAlarm::OnUnregistration`.
unfoldable pub on_unregistration : EpollAlarm → EpollAlarm
on_unregistration a = record a { registered = false }

-- `EpollAlarm::OnShutdown`.
unfoldable pub on_shutdown : EpollAlarm → EpollAlarm
on_shutdown a = record a { registered = false; attached = false }

-- The members of the server that the alarms use, with the objects of the alarms by address, and the
-- next new token.
pub record Alarms (W : Type 0) : Type 0 where
  pub world : W
  pub alarm_map : List (ℕ × Timer)
  pub all_alarms : List ℕ
  pub skipped : List ℕ
  pub next_token : ℕ
  pub objects : ℕ → EpollAlarm

-- What a class that extends `EpollAlarm` does after it has called `EpollAlarm::OnAlarm`: it returns the
-- next time, or sets or cancels an alarm and goes on.
pub data Firing (W : Type 0) : Type 0 where
  returns : ℤ → W → Firing W
  sets : ℕ → ℤ → W → (W → Firing W) → Firing W
  cancels : ℕ → W → (W → Firing W) → Firing W
