-- ===== src/Alarms/Loop.antt =====
-- epoll_server.cc: `CallAndReregisterAlarmEvents`. `none` is also a loop that does not end.
pub mod Cuts
pub mod Fronts
pub mod Firings
pub mod Rounds
pub mod Turned
pub mod Ends
pub mod Caught
pub mod Diverges
use cmuquic.Prelude.{
  ℕ, zero, suc, ◌+◌, ◌*◌, Bool, true, false, not, Option, none, some, List, [], ◌∷◌, if◌then◌else◌,
  length, ◌>>=◌,
}
use cmuquic.Prelude.Int.{ℤ, pos, ltb_ℤ}
use cmuquic.Prelude.Assoc.{lookup, contains, erase}
use cmuquic.Epoll.Data.Ready.{has, delete}
use cmuquic.Alarms.Data.{Timer, first, next_of, on_alarm, Alarms, Firing, returns, sets, cancels}
use cmuquic.Alarms.Registry.{with_world, set_object, register_alarm, set_impl, cancel_impl}

module _ {W : Type 0} where
  -- What follows `EpollAlarm::OnAlarm` in `OnAlarm`, with its calls of the server.
  unfoldable pub run_firing : Firing W → Alarms W → Option (ℤ × Alarms W)
  run_firing (returns v w) s = some (v, with_world w s)
  run_firing (sets a time w next) s =
      set_impl a time (with_world w s) >>= λ s'. run_firing (next s'.world) s'
  run_firing (cancels a w next) s =
      cancel_impl a (with_world w s) >>= λ s'. run_firing (next s'.world) s'

  -- An alarm before its `OnAlarm` goes on: it is out of `all_alarms_`, and `EpollAlarm::OnAlarm` is done.
  unfoldable pub begin_firing : ℕ → Alarms W → Alarms W
  begin_firing a s = record s {
    all_alarms = delete a s.all_alarms;
    objects = set_object a (on_alarm (s.objects a)) s.objects;
  }

  -- The end of a turn of the loop, after `OnAlarm` has returned `v`: the next iterator, and the server.
  unfoldable pub finish_firing : ℤ → ℕ → ℕ → ℤ → Alarms W → Option (Option ℕ × Alarms W)
  finish_firing now q a v s =
      let next = next_of q s.alarm_map in
      let s' = record s { alarm_map = erase q s.alarm_map } in
      let s'' = record s' { skipped = if ltb_ℤ now v then s.skipped else a ∷ s.skipped } in
      if not (contains q s.alarm_map)
      then none
      else if ltb_ℤ (pos 0) v
      then (register_alarm v a s'' >>= λ r. some (next, r))
      else some (next, s')

module _ {W : Type 0} (host : W → ℕ → Firing W) (now : ℤ) where
  -- One turn of the loop, for an alarm that is called.
  unfoldable pub fire : ℕ → Timer → Alarms W → Option (Option ℕ × Alarms W)
  fire q t s =
      let s' = begin_firing t.cb s in
      run_firing (host s'.world t.cb) s' >>= λ r. finish_firing now q t.cb r.0 r.1

  abbrev pub alarm_round :
      (Option ℕ → Alarms W → Option (Alarms W)) → Option ℕ → Alarms W → Option (Alarms W)
  alarm_round rounds none s = some s
  alarm_round rounds (some q) s = elim (lookup q s.alarm_map) [
    | none ↦ none
    | some t ↦
        if ltb_ℤ now t.time
        then some s
        else if has t.cb s.skipped
        then rounds (next_of q s.alarm_map) s
        else (fire q t s >>= λ r. rounds r.0 r.1)
  ]

  -- The loop, on fuel.
  unfoldable pub alarm_loop : ℕ → Option ℕ → Alarms W → Option (Alarms W)
  alarm_loop zero i s = none
  alarm_loop (suc fuel) i s = alarm_round (alarm_loop fuel) i s

  -- `CallAndReregisterAlarmEvents`, with the time that was recorded.
  unfoldable pub call_and_reregister_alarm_events : Alarms W → Option (Alarms W)
  call_and_reregister_alarm_events s =
      alarm_loop (suc (2 * length s.alarm_map)) (first s.alarm_map) s >>= λ s'.
      some (record s' { skipped = [] })
