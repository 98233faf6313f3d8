-- ===== src/Cycle/Executed.antt =====
-- epoll_server.cc: `WaitForEventsAndExecuteCallbacks` returns.
use cmuquic.Prelude.{
  ℕ, ◌≡◌, refl, Bool, false, not, is_empty, Option, none, some, [], ◌>>=◌, Runs, Runs->>=, Runs-if,
  of_eq_some, All,
}
use mathlib.Core.Path.{ap, ◌∙◌}
use cmuquic.Prelude.Int.{ℤ, pos}
use cmuquic.Epoll.Data.{EpollServer}
use cmuquic.Epoll.Registry.Keeps.{Consistent}
use cmuquic.Epoll.Registry.Kernel.{PollLaws}
use cmuquic.Epoll.Waiting.{wait_time, timeout_in_ms}
use cmuquic.Epoll.Loop.Turns.{Leaves, with_world-Consistent}
use cmuquic.Epoll.Loop.Ends.{dispatch_events-Runs}
use cmuquic.Alarms.Data.{Alarms}
use cmuquic.Alarms.Registry.Armed.{Armed}
use cmuquic.Alarms.Loop.{call_and_reregister_alarm_events}
use cmuquic.Alarms.Loop.Firings.{Settled, with_world-Armed}
use cmuquic.Alarms.Loop.Ends.{HostLaws, call_and_reregister_alarm_events-Runs}
use cmuquic.Cycle.{
  to_alarms, to_descriptors, Calls, EpollMain, first_time, in_world,
  wait_for_events_and_call_handle_events, execute, wait_for_events_and_execute_callbacks,
}
use cmuquic.Cycle.Events.{PollKeeps, dispatch_events-Keeps}
use cmuquic.Cycle.Firings.{FiringKeeps, call_and_reregister_alarm_events-Keeps}

-- The alarms between two turns of the server.
abbrev pub AtRest : {W : Type 0} → Alarms W → Type 0
AtRest s = Armed none s × (s.skipped ≡ [])

module _ {W : Type 0} (watched : W → ℕ → Bool) where
  -- The set of watched descriptors, below the alarms.
  abbrev pub watched_below : Alarms W → ℕ → Bool
  watched_below s q = watched s.world q

  -- The descriptors between two turns of the server.
  abbrev pub Idle : EpollServer W → Type 0
  Idle s = Consistent watched none s × (s.tmp_list ≡ [])

  -- What the server relies on. The callbacks of descriptors, and `epoll_ctl`, leave the alarms at rest
  -- and the watched descriptors to the server; so do the alarms with the descriptors; neither the
  -- clock nor `epoll_wait`, which does not fail, watches anything.
  pub record CallLaws (R : ℕ → Bool) (C : Calls W) : Type 0 where
    pub poll : PollLaws C.poll watched_below
    pub leaves :
        (w : Alarms W) (cb fd mask : ℕ) → Leaves watched_below w (C.poll.on_event w cb fd mask)
    pub rests : PollKeeps AtRest C.poll
    pub proper : (now : ℤ) → HostLaws now R (C.on_alarm now)
    pub idles :
        (now : ℤ) (s : EpollServer W) (a : ℕ) → Idle s → FiringKeeps Idle (C.on_alarm now s a)
    pub clock : (w : W) (q : ℕ) → watched (C.now_in_usec w).0 q ≡ watched w q
    pub waits :
        (w : W) (ms : ℤ) → Runs (λ r. (q : ℕ) → watched r.0 q ≡ watched w q) (C.epoll_wait w ms)

  -- The server between two calls of `WaitForEventsAndExecuteCallbacks`.
  pub record IsReady (s : EpollServer (Alarms W)) : Type 0 where
    pub descriptors : Consistent watched_below none s
    pub tmp : s.tmp_list ≡ []
    pub alarms : AtRest s.world

  pub in_world-IsReady :
      (w : W) (s : EpollServer (Alarms W))
      → ((q : ℕ) → watched w q ≡ watched s.world.world q)
      → IsReady s
      → IsReady (in_world w s)
  in_world-IsReady w s same v = record {
    descriptors =
        with_world-Consistent watched_below none (record s.world { world = w }) s same
          v.descriptors;
    tmp = v.tmp;
    alarms = (with_world-Armed none w s.world v.alarms.0, v.alarms.1);
  }

module _ {W : Type 0} (R : ℕ → Bool) (C : Calls W) where
  -- The alarms that were due, at the time that was recorded after the wait, were called.
  abbrev pub Punctual : Option ℤ → ℤ → EpollServer (Alarms W) → EpollServer (Alarms W) → Type 0
  Punctual none timeout s s' = Unit {0}
  Punctual (some next) timeout s s' =
      let (w, now) = C.now_in_usec s.world.world in
      (r : ℤ × EpollServer (Alarms W))
      → wait_for_events_and_call_handle_events C (wait_time timeout now (some next)) (in_world w s)
        ≡ some r
      → All (Settled r.0 R) s'.world.alarm_map

module _ {W : Type 0} (watched : W → ℕ → Bool) (R : ℕ → Bool) (C : Calls W)
    (L : CallLaws watched R C) where
  wait-Runs :
      (timeout : ℤ) (s : EpollServer (Alarms W))
      → IsReady watched s
      → Runs (λ r. IsReady watched r.1) (wait_for_events_and_call_handle_events C timeout s)
  unfolding wait_for_events_and_call_handle_events
  wait-Runs timeout s v =
      Runs->>= _ _ _ _ (L.waits s.world.world (timeout_in_ms timeout (not (is_empty s.ready_list))))
        (λ r same.
          let w = C.now_in_usec r.0 in
          let v' = in_world-IsReady watched w.0 s (λ q. L.clock r.0 q ∙ same q) v in
          let (s', run, (d, t)) =
            dispatch_events-Runs C.poll (watched_below watched) L.poll L.leaves r.1 (in_world w.0 s)
              v'.descriptors v'.tmp in
          (
            (w.1, s'),
            ap (λ o. o >>= λ x. some (w.1, x)) run,
            record {
              descriptors = d;
              tmp = t;
              alarms =
                  dispatch_events-Keeps AtRest C.poll L.rests r.1 (in_world w.0 s) s' v'.alarms run;
            },
          ))

  -- The invariants of one half, in the other's view.
  alarms-AtRest : (s : EpollServer (Alarms W)) → AtRest s.world → AtRest (to_alarms s)
  alarms-AtRest s (v, e) = (
    record {
      sorted = v.sorted;
      distinct = v.distinct;
      simple = v.simple;
      fresh = v.fresh;
      owned = v.owned;
      valid = v.valid;
      active = v.active;
      known = v.known;
    },
    e,
  )

  descriptors-AtRest : (s : Alarms (EpollServer W)) → AtRest s → AtRest (to_descriptors s).world
  descriptors-AtRest s (v, e) = (
    record {
      sorted = v.sorted;
      distinct = v.distinct;
      simple = v.simple;
      fresh = v.fresh;
      owned = v.owned;
      valid = v.valid;
      active = v.active;
      known = v.known;
    },
    e,
  )

  alarms-Idle : (s : EpollServer (Alarms W)) → IsReady watched s → Idle watched (to_alarms s).world
  alarms-Idle s v =
      let c = v.descriptors in
      (
        record {
          distinct = c.distinct;
          ready = c.ready;
          tmp = c.tmp;
          size = c.size;
          slots = c.slots;
        },
        v.tmp,
      )

  to_descriptors-IsReady :
      (s : Alarms (EpollServer W))
      → AtRest s
      → Idle watched s.world
      → IsReady watched (to_descriptors s)
  to_descriptors-IsReady s v (c, e) = record {
    descriptors = record {
      distinct = c.distinct;
      ready = c.ready;
      tmp = c.tmp;
      size = c.size;
      slots = c.slots;
    };
    tmp = e;
    alarms = descriptors-AtRest s v;
  }

  execute-Runs :
      (next : Option ℤ) (timeout : ℤ) (s : EpollServer (Alarms W))
      → IsReady watched s
      → Runs (λ s'. IsReady watched s' × Punctual R C next timeout s s') (execute C next timeout s)
  execute-Runs none timeout s v =
      Runs->>= _ _ _ _ (wait-Runs timeout s v) (λ r v'. (r.1, refl, (v', tt)))
  execute-Runs (some next) timeout s v =
      let w = C.now_in_usec s.world.world in
      let v' = in_world-IsReady watched w.0 s (L.clock s.world.world) v in
      let (r, run, q) = wait-Runs (wait_time timeout w.1 (some next)) (in_world w.0 s) v' in
      let rest = alarms-AtRest r.1 q.alarms in
      let (t, called, ((armed, settled), k)) =
        call_and_reregister_alarm_events-Runs (C.on_alarm r.0) r.0 R (L.proper r.0) (to_alarms r.1)
          rest.0 rest.1 in
      let idle =
        call_and_reregister_alarm_events-Keeps (Idle watched) (C.on_alarm r.0) r.0 (L.idles r.0)
          (to_alarms r.1) t (alarms-Idle r.1 q) called in
      (
        to_descriptors t,
        ap
              (λ o. o >>= λ x.
                call_and_reregister_alarm_events (C.on_alarm x.0) x.0 (to_alarms x.1) >>= λ s'.
                some (to_descriptors s'))
              run
            ∙ ap (λ o. o >>= λ s'. some (to_descriptors s')) called,
        (
          to_descriptors-IsReady t (armed, k) idle,
          λ r' run'.
              of_eq_some (λ (x : ℤ × EpollServer (Alarms W)). All (Settled x.0 R) t.alarm_map) run
                run' settled,
        ),
      )

  -- When it is not called from within itself, `WaitForEventsAndExecuteCallbacks` returns from a server
  -- at rest, whatever the events and callbacks of descriptors and the alarms do within the laws of the
  -- calls, and leaves the server at rest. If there was an alarm at its start, then
  -- every alarm that is left is later than the time that was recorded after the wait, or is one
  -- that may return a time that is due.
  pub wait_for_events_and_execute_callbacks-Runs :
      (s : EpollMain W)
      → IsReady watched s.state
      → s.in_wait ≡ false
      → Runs
          (λ s'.
            IsReady watched s'.state
            × (s'.in_wait ≡ false)
            × (s'.recorded_now_in_us ≡ pos 0)
            × Punctual R C (first_time s.state.world.alarm_map) s.timeout_in_us s.state s'.state)
          (wait_for_events_and_execute_callbacks C s)
  unfolding wait_for_events_and_execute_callbacks
  wait_for_events_and_execute_callbacks-Runs s v free =
      Runs-if _ s.in_wait (some s) _ (λ nested. absurd (cc))
        (λ outer.
          Runs->>= _ _ _ _
            (execute-Runs (first_time s.state.world.alarm_map) s.timeout_in_us s.state v)
            (λ s' (v', p). (_, refl, (v', free, refl, p))))
