-- ===== src/Alarms/Loop/Caught.antt =====
-- epoll_server.cc: what `CallAndReregisterAlarmEvents` does before it ends.
use cmuquic.Prelude.{ℕ, ◌≡◌, refl, Bool, none, some, [], Runs, >>=-eq-some, of_eq_some}
use cmuquic.Prelude.Int.{ℤ}
use cmuquic.Alarms.Data.{first, Alarms, Firing}
use cmuquic.Alarms.Registry.Armed.{Armed}
use cmuquic.Alarms.Loop.{call_and_reregister_alarm_events}
use cmuquic.Alarms.Loop.Turned.{Ran, alarm_loop-Ran}
use cmuquic.Alarms.Loop.Ends.{HostLaws, CaughtUp, call_and_reregister_alarm_events-Runs}

module _ {W : Type 0} (host : W → ℕ → Firing W) (now : ℤ) where
  -- A run of the loop from the first entry, and then no alarm is skipped any more.
  abbrev pub RanFrom : Alarms W → Alarms W → Type 0
  RanFrom s s' =
      (s0 : Alarms W) × Ran host now (first s.alarm_map) s s0 × (record s0 { skipped = [] } ≡ s')

  call_and_reregister_alarm_events-RanFrom :
      (s s' : Alarms W) → call_and_reregister_alarm_events host now s ≡ some s' → RanFrom s s'
  unfolding call_and_reregister_alarm_events
  call_and_reregister_alarm_events-RanFrom s s' e =
      let (s0, run, last) = >>=-eq-some _ (λ (x : Alarms W). some (record x { skipped = [] })) e in
      (
        s0,
        alarm_loop-Ran host now _ (first s.alarm_map) s s0 run,
        of_eq_some (λ x. record s0 { skipped = [] } ≡ x) refl last refl,
      )

module _ {W : Type 0} (host : W → ℕ → Firing W) (now : ℤ) (R : ℕ → Bool) where
  -- If `OnAlarm` sets only alarms that are not set, to times later than now, and returns a time only
  -- when its own alarm is not set, and a time that is due only for an alarm of R, then
  -- `CallAndReregisterAlarmEvents` ends from a state that satisfies the invariant of the alarms. It has
  -- taken turns from the first entry on, each for an entry that is due: `OnAlarm` of its alarm ran to the
  -- end, and the entry was taken away or registered anew, unless the alarm is in the set of those to
  -- skip. The last turn came to the end of the map, or to an entry that is later than now. The
  -- invariant holds again, and each entry that is left is later than now, or of an alarm of R.
  pub call_and_reregister_alarm_events-CaughtUp :
      (s : Alarms W)
      → HostLaws now R host
      → Armed none s
      → s.skipped ≡ []
      → Runs
          (λ s'. CaughtUp now R s' × (s'.skipped ≡ []) × RanFrom host now s s')
          (call_and_reregister_alarm_events host now s)
  call_and_reregister_alarm_events-CaughtUp s L v e =
      let (s', run, (caught, empty)) = call_and_reregister_alarm_events-Runs host now R L s v e in
      (s', run, (caught, empty, call_and_reregister_alarm_events-RanFrom host now s s' run))
