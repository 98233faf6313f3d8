-- ===== src/Cycle.antt =====
-- epoll_server.cc: `WaitForEventsAndExecuteCallbacks`, over the descriptors and the alarms together.
-- `none` is what ends the program, or a loop that does not end.
pub mod Events
pub mod Firings
pub mod Executed
pub mod Commands
pub mod Invariants
pub mod Shutdown
use cmuquic.Prelude.{
  ℕ, Bool, true, false, not, is_empty, Option, none, some, List, [], ◌∷◌, if◌then◌else◌, ◌>>=◌,
}
use cmuquic.Prelude.Int.{ℤ, pos, ◌+ℤ◌}
use cmuquic.Socket.{is_zero}
use cmuquic.Epoll.Data.{EpollServer, Poll}
use cmuquic.Epoll.Loop.{dispatch_events}
use cmuquic.Epoll.Waiting.{wait_time, timeout_in_ms}
use cmuquic.Alarms.Data.{Timer, Alarms, Firing}
use cmuquic.Alarms.Registry.{register_alarm}
use cmuquic.Alarms.Loop.{call_and_reregister_alarm_events}

-- The server as its alarms see it, and as its descriptors do: the other half is part of the world.
abbrev pub to_alarms : {W : Type 0} → EpollServer (Alarms W) → Alarms (EpollServer W)
to_alarms s = record {
  world = record {
    world = s.world.world;
    cb_map = s.cb_map;
    ready_list = s.ready_list;
    tmp_list = s.tmp_list;
    ready_list_size = s.ready_list_size;
  };
  alarm_map = s.world.alarm_map;
  all_alarms = s.world.all_alarms;
  skipped = s.world.skipped;
  next_token = s.world.next_token;
  objects = s.world.objects;
}

abbrev pub to_descriptors : {W : Type 0} → Alarms (EpollServer W) → EpollServer (Alarms W)
to_descriptors s = record {
  world = record {
    world = s.world.world;
    alarm_map = s.alarm_map;
    all_alarms = s.all_alarms;
    skipped = s.skipped;
    next_token = s.next_token;
    objects = s.objects;
  };
  cb_map = s.world.cb_map;
  ready_list = s.world.ready_list;
  tmp_list = s.world.tmp_list;
  ready_list_size = s.world.ready_list_size;
}

-- What the server calls: the callbacks of descriptors, the alarms (with the recorded time, which they
-- may read), the clock, and `epoll_wait` (`none` when it fails other than by an interrupt, which
-- reports no events).
pub record Calls (W : Type 0) : Type 0 where
  pub poll : Poll (Alarms W)
  pub on_alarm : ℤ → EpollServer W → ℕ → Firing (EpollServer W)
  pub now_in_usec : W → W × ℤ
  pub epoll_wait : W → ℤ → Option (W × List (ℕ × ℕ))

-- The server, with the members that only its main operation uses.
pub record EpollMain (W : Type 0) : Type 0 where
  pub state : EpollServer (Alarms W)
  pub timeout_in_us : ℤ
  pub recorded_now_in_us : ℤ
  pub in_wait : Bool

-- The time of the first alarm.
unfoldable pub first_time : List (ℕ × Timer) → Option ℤ
first_time [] = none
first_time ((q, t) ∷ m) = some t.time

module _ {W : Type 0} where
  -- The world below both halves.
  abbrev pub in_world : W → EpollServer (Alarms W) → EpollServer (Alarms W)
  in_world w s = record s { world = record s.world { world = w } }

module _ {W : Type 0} (C : Calls W) where
  -- `ApproximateNowInUsec`.
  unfoldable pub approximate_now_in_usec : EpollMain W → W × ℤ
  approximate_now_in_usec s =
      if not (is_zero s.recorded_now_in_us)
      then (s.state.world.world, s.recorded_now_in_us)
      else C.now_in_usec s.state.world.world

  -- `RegisterAlarmApproximateDelta`.
  unfoldable pub register_alarm_approximate_delta : ℤ → ℕ → EpollMain W → Option (EpollMain W)
  register_alarm_approximate_delta delta a s =
      let (w, now) = approximate_now_in_usec s in
      register_alarm (now +ℤ delta) a (in_world w s.state).world >>= λ r.
      some (record s { state = record s.state { world = r } })

  -- `WaitForEventsAndCallHandleEvents`: the time that it records, and the server.
  unfoldable pub wait_for_events_and_call_handle_events :
      ℤ → EpollServer (Alarms W) → Option (ℤ × EpollServer (Alarms W))
  wait_for_events_and_call_handle_events timeout s =
      C.epoll_wait s.world.world (timeout_in_ms timeout (not (is_empty s.ready_list))) >>= λ r.
      let (w, now) = C.now_in_usec r.0 in
      dispatch_events C.poll r.1 (in_world w s) >>= λ s'. some (now, s')

  -- `WaitForEventsAndExecuteCallbacks`, when there are no alarms and when there are.
  abbrev pub execute : Option ℤ → ℤ → EpollServer (Alarms W) → Option (EpollServer (Alarms W))
  execute none timeout s = wait_for_events_and_call_handle_events timeout s >>= λ r. some r.1
  execute (some next) timeout s =
      let (w, now) = C.now_in_usec s.world.world in
      wait_for_events_and_call_handle_events (wait_time timeout now (some next)) (in_world w s)
      >>= λ r. call_and_reregister_alarm_events (C.on_alarm r.0) r.0 (to_alarms r.1) >>= λ s'.
          some (to_descriptors s')

  -- `WaitForEventsAndExecuteCallbacks`. A call from within itself returns at once.
  unfoldable pub wait_for_events_and_execute_callbacks : EpollMain W → Option (EpollMain W)
  wait_for_events_and_execute_callbacks s =
      if s.in_wait
      then some s
      else (execute (first_time s.state.world.alarm_map) s.timeout_in_us s.state >>= λ s'.
          some (record s { state = s'; recorded_now_in_us = pos 0 }))
