-- ===== src/Cycle/Invariants.antt =====
-- epoll_server.cc: what holds of the world after a wait holds when the main operation returns.
use cmuquic.Prelude.{
  ℕ, ◌≡◌, refl, false, not, is_empty, Option, none, some, List, >>=-eq-some, of_eq_some,
  either_branch,
}
use cmuquic.Prelude.Int.{ℤ, pos}
use cmuquic.Epoll.Data.{EpollServer}
use cmuquic.Epoll.Waiting.{wait_time, timeout_in_ms}
use cmuquic.Epoll.Loop.{dispatch_events}
use cmuquic.Alarms.Data.{Alarms}
use cmuquic.Alarms.Loop.{call_and_reregister_alarm_events}
use cmuquic.Cycle.{
  to_alarms, to_descriptors, Calls, EpollMain, first_time, in_world,
  wait_for_events_and_call_handle_events, execute, wait_for_events_and_execute_callbacks,
}
use cmuquic.Cycle.Events.{PollKeeps, dispatch_events-Keeps}
use cmuquic.Cycle.Firings.{FiringKeeps, call_and_reregister_alarm_events-Keeps}

module _ {W : Type 0} (J I : W → Type 0) where
  -- `epoll_wait` takes J to I, and all else keeps I; the clock also keeps J.
  pub record WaitTakes (C : Calls W) : Type 0 where
    pub before : (w : W) → J w → J (C.now_in_usec w).0
    pub wait : (w : W) (ms : ℤ) (r : W × List (ℕ × ℕ)) → J w → C.epoll_wait w ms ≡ some r → I r.0
    pub clock : (w : W) → I w → I (C.now_in_usec w).0
    pub polls : PollKeeps (λ a. I a.world) C.poll
    pub fires :
        (now : ℤ) (s : EpollServer W) (a : ℕ)
        → I s.world
        → FiringKeeps (λ e. I e.world) (C.on_alarm now s a)

module _ {W : Type 0} (J I : W → Type 0) (C : Calls W) (L : WaitTakes J I C) where
  wait-Keeps :
      (timeout : ℤ) (s : EpollServer (Alarms W)) (r : ℤ × EpollServer (Alarms W))
      → J s.world.world
      → wait_for_events_and_call_handle_events C timeout s ≡ some r
      → I r.1.world.world
  unfolding wait_for_events_and_call_handle_events
  wait-Keeps timeout s r j e =
      let (p, waited, rest) =
        >>=-eq-some
          (C.epoll_wait s.world.world (timeout_in_ms timeout (not (is_empty s.ready_list)))) _ e in
      let w = C.now_in_usec p.0 in
      let (s', handled, last) =
        >>=-eq-some (dispatch_events C.poll p.1 (in_world w.0 s)) (λ s'. some (w.1, s')) rest in
      let i = L.clock p.0 (L.wait s.world.world _ p j waited) in
      of_eq_some (λ (x : ℤ × EpollServer (Alarms W)). I x.1.world.world) refl last
        (dispatch_events-Keeps (λ a. I a.world) C.poll L.polls p.1 (in_world w.0 s) s' i handled)

  execute-Keeps :
      (next : Option ℤ) (timeout : ℤ) (s s' : EpollServer (Alarms W))
      → J s.world.world
      → execute C next timeout s ≡ some s'
      → I s'.world.world
  execute-Keeps none timeout s s' j e =
      let (r, waited, last) =
        >>=-eq-some (wait_for_events_and_call_handle_events C timeout s) (λ r. some r.1) e in
      of_eq_some (λ (x : EpollServer (Alarms W)). I x.world.world) refl last
        (wait-Keeps timeout s r j waited)
  execute-Keeps (some next) timeout s s' j e =
      let w = C.now_in_usec s.world.world in
      let (r, waited, rest) =
        >>=-eq-some
          (wait_for_events_and_call_handle_events C (wait_time timeout w.1 (some next))
            (in_world w.0 s))
          _ e in
      let (t, called, last) =
        >>=-eq-some (call_and_reregister_alarm_events (C.on_alarm r.0) r.0 (to_alarms r.1))
          (λ t. some (to_descriptors t)) rest in
      let i = wait-Keeps _ (in_world w.0 s) r (L.before s.world.world j) waited in
      of_eq_some (λ (x : EpollServer (Alarms W)). I x.world.world) refl last
        (call_and_reregister_alarm_events-Keeps (λ x. I x.world) (C.on_alarm r.0) r.0 (L.fires r.0)
          (to_alarms r.1) t i called)

  -- A predicate of the world that `epoll_wait` establishes, and all else keeps, holds in the end.
  pub wait_for_events_and_execute_callbacks-Keeps :
      (s s' : EpollMain W)
      → s.in_wait ≡ false
      → J s.state.world.world
      → wait_for_events_and_execute_callbacks C s ≡ some s'
      → I s'.state.world.world
  unfolding wait_for_events_and_execute_callbacks
  wait_for_events_and_execute_callbacks-Keeps s s' free j =
      either_branch (λ o. o ≡ some s' → I s'.state.world.world) s.in_wait (some s) _
        (λ nested. absurd (cc))
        (λ outer e.
          let (t, run, last) =
            >>=-eq-some (execute C (first_time s.state.world.alarm_map) s.timeout_in_us s.state)
              (λ t. some (record s { state = t; recorded_now_in_us = pos 0 })) e in
          of_eq_some (λ (x : EpollMain W). I x.state.world.world) refl last
            (execute-Keeps (first_time s.state.world.alarm_map) s.timeout_in_us s.state t j run))
