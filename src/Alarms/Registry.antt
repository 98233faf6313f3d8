-- ===== src/Alarms/Registry.antt =====
-- epoll_server.cc: how alarms are registered; quic_epoll_connection_helper.cc: `QuicEpollAlarm`.
-- `none` is the use of an iterator that is not valid, or the end of the program on a second
-- registration.
pub mod Armed
pub mod Undone
use cmuquic.Prelude.{
  ℕ, suc, Bool, true, false, not, Option, none, some, List, [], ◌∷◌, ◌==◌, if◌then◌else◌, ◌>>=◌,
}
use cmuquic.Prelude.Int.{ℤ}
use cmuquic.Prelude.Assoc.{lookup, erase}
use cmuquic.Epoll.Data.Ready.{has, delete}
use cmuquic.Alarms.Data.{
  Timer, place, EpollAlarm, on_alarm, on_registration, on_unregistration, Alarms,
}

-- The object of one alarm changes.
abbrev pub set_object : ℕ → EpollAlarm → (ℕ → EpollAlarm) → ℕ → EpollAlarm
set_object a o objects b = if a == b then o else objects b

module _ {W : Type 0} where
  abbrev pub with_world : W → Alarms W → Alarms W
  with_world w s = record s { world = w }

  -- `ContainsAlarm`.
  unfoldable pub contains_alarm : ℕ → Alarms W → Bool
  contains_alarm a s = has a s.all_alarms

  -- `RegisterAlarm`, with `OnRegistration` of the alarm.
  unfoldable pub register_alarm : ℤ → ℕ → Alarms W → Option (Alarms W)
  register_alarm time a s =
      if contains_alarm a s
      then none
      else some (record s {
        alarm_map = place s.next_token (record { time = time; cb = a }) s.alarm_map;
        all_alarms = a ∷ s.all_alarms;
        next_token = suc s.next_token;
        objects = set_object a (on_registration s.next_token (s.objects a)) s.objects;
      })

  -- `UnregisterAlarm`, with `OnUnregistration` of the alarm.
  unfoldable pub unregister_alarm : ℕ → Alarms W → Option (Alarms W)
  unregister_alarm q s = elim (lookup q s.alarm_map) [
    | none ↦ none
    | some t ↦ some (record s {
      alarm_map = erase q s.alarm_map;
      all_alarms = delete t.cb s.all_alarms;
      objects = set_object t.cb (on_unregistration (s.objects t.cb)) s.objects;
    })
  ]

  -- `EpollAlarm::UnregisterIfRegistered`, which is also the destructor of `EpollAlarm`.
  unfoldable pub unregister_if_registered : ℕ → Alarms W → Option (Alarms W)
  unregister_if_registered a s =
      let o = s.objects a in if not o.registered then some s else unregister_alarm o.token s

  -- `QuicEpollAlarm::SetImpl`, with the deadline in microseconds.
  unfoldable pub set_impl : ℕ → ℤ → Alarms W → Option (Alarms W)
  set_impl a deadline s = register_alarm deadline a s

  -- `QuicEpollAlarm::CancelImpl`.
  unfoldable pub cancel_impl : ℕ → Alarms W → Option (Alarms W)
  cancel_impl a s = unregister_if_registered a s
