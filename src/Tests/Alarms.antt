-- ===== src/Tests/Alarms.antt =====
-- The theorems on the alarms, with an alarm that returns a time that is due, and one that sets another.
use cmuquic.Prelude.{
  ℕ, ◌≡◌, refl, Bool, true, false, none, some, List, [], ◌∷◌, ◌==◌, if◌then◌else◌, Runs, arith,
  either_branch, of_eq_some, ◌>>=◌,
}
use cmuquic.Prelude.Assoc.{lookup, contains, erase}
use cmuquic.Prelude.Int.{ℤ, pos}
use cmuquic.Epoll.Data.Ready.{has, delete}
use cmuquic.Alarms.Data.{
  place, next_of, first, on_alarm, on_registration, on_unregistration, Timer, EpollAlarm, Alarms,
  Firing, returns, sets, cancels,
}
use cmuquic.Alarms.Registry.{
  set_impl, unregister_alarm, contains_alarm, cancel_impl, with_world, unregister_if_registered,
  register_alarm,
}
use cmuquic.Alarms.Registry.Armed.{
  Armed, Added, Removed, unregister_if_registered-Runs, register_alarm-Runs,
}
use cmuquic.Alarms.Registry.Undone.{IsUndone, register_alarm-unregister_if_registered}
use cmuquic.Alarms.Loop.{
  fire, begin_firing, run_firing, finish_firing, alarm_loop, call_and_reregister_alarm_events,
}
use cmuquic.Alarms.Loop.Firings.{IsProper, with_world-Armed}
use cmuquic.Alarms.Loop.Ends.{HostLaws, CaughtUp}
use cmuquic.Alarms.Loop.Caught.{RanFrom, call_and_reregister_alarm_events-CaughtUp}
use cmuquic.Alarms.Loop.Diverges.{lone}

abbrev first_only : ℕ → Bool
first_only a = a == 0

abbrev resetting : ℕ → Firing ℕ
resetting w = cancels 0 w (λ w1. sets 0 (pos 20) w1 (λ w2. returns (pos 0) w2))

abbrev called : ℕ → ℕ → Firing ℕ
called w a = if a == 0 then returns (pos 5) w else resetting w

called-HostLaws : HostLaws (pos 10) first_only called
unfolding cancel_impl
called-HostLaws s q t v found off =
    either_branch (λ F. IsProper (pos 10) first_only t.cb F s) (t.cb == 0) (returns (pos 5) s.world)
      (resetting s.world) (λ here h. (off, ground (arith, here)))
      (λ other s' e.
        let (r, e', d) =
          unregister_if_registered-Runs (some q) 0 (with_world s.world s)
            (with_world-Armed (some q) s.world s v) in
        (
          of_eq_some (λ (x : Alarms ℕ). (x.objects 0).registered ≡ false) e' e d.off,
          refl,
          λ s'' e'' h. absurd (cc),
        ))

abbrev timer : ℕ → ℕ → Timer
timer n a = record { time = pos n; cb = a }

abbrev registered_as : ℕ → EpollAlarm
registered_as q = record { registered = true; token = q; attached = true }

abbrev two_alarms : Alarms ℕ
two_alarms = record {
  world = 0;
  alarm_map = (4, timer 3 0) ∷ (2, timer 7 1) ∷ [];
  all_alarms = 0 ∷ 1 ∷ [];
  skipped = [];
  next_token = 5;
  objects = λ a.
      if a == 0
      then registered_as 4
      else if a == 1
      then registered_as 2
      else record { registered = false; token = 0; attached = false };
}

two_alarms-Armed : Armed none two_alarms
unfolding lookup contains has
two_alarms-Armed = record {
  sorted = ground arith;
  distinct = ground arith;
  simple = ground arith;
  fresh = λ q h. ground arith;
  owned = λ q h. ground arith;
  valid = λ a h. ground arith;
  active = λ q h. absurd (cc);
  known = λ a. ground arith;
}

register_alarm-Runs_example :
    Runs (Added none (pos 7) 2 two_alarms) (register_alarm (pos 7) 2 two_alarms)
register_alarm-Runs_example = register_alarm-Runs none (pos 7) 2 two_alarms two_alarms-Armed refl

unregister_if_registered-Runs_example :
    Runs (Removed none 1 two_alarms) (unregister_if_registered 1 two_alarms)
unregister_if_registered-Runs_example =
    unregister_if_registered-Runs none 1 two_alarms two_alarms-Armed

call_and_reregister_alarm_events-CaughtUp_example :
    Runs
      (λ s'.
        CaughtUp (pos 10) first_only s' × (s'.skipped ≡ []) × RanFrom called (pos 10) two_alarms s')
      (call_and_reregister_alarm_events called (pos 10) two_alarms)
call_and_reregister_alarm_events-CaughtUp_example =
    call_and_reregister_alarm_events-CaughtUp called (pos 10) first_only two_alarms called-HostLaws
      two_alarms-Armed refl

-- Alarm 0 was set again to 5 and to 20, by its return and by alarm 1.
abbrev times : List (ℕ × Timer) → List ℤ
times [] = []
times ((q, t) ∷ m) = t.time ∷ times m

called_twice :
    (call_and_reregister_alarm_events called (pos 10) two_alarms >>= λ s. some (times s.alarm_map))
    ≡ some (pos 20 ∷ [])
unfolding call_and_reregister_alarm_events alarm_loop fire begin_firing run_firing finish_firing
    set_impl cancel_impl unregister_if_registered unregister_alarm register_alarm contains_alarm
    place next_of first erase contains has delete lookup on_alarm on_registration on_unregistration
called_twice = refl

abbrev resets_itself : ℕ → ℕ → Firing ℕ
resets_itself w a = sets a (pos 5) w (returns (pos 0))

-- A server whose only alarm is due.
abbrev resetting_server : Alarms ℕ
resetting_server = lone 0 (timer 3 7) 1 (λ a. registered_as 0) 0

register_alarm-unregister_if_registered_example :
    Runs
      (IsUndone none 2 two_alarms)
      (register_alarm (pos 7) 2 two_alarms >>= unregister_if_registered 2)
register_alarm-unregister_if_registered_example =
    register_alarm-unregister_if_registered none (pos 7) 2 two_alarms two_alarms-Armed refl
