-- ===== src/Tests/Cycle.antt =====
-- The main operation of the epoll server, on a stack that keeps a set of descriptors.
use cmuquic.Prelude.{
  ℕ, ◌≡◌, refl, Bool, true, false, Option, none, some, [], ◌∷◌, ◌==◌, if◌then◌else◌, Runs, arith,
  either_branch, of_eq_some,
}
use cmuquic.Prelude.Assoc.{lookup, contains}
use cmuquic.Prelude.Int.{ℤ, pos, ◌+ℤ◌, +ℤ_parts}
use cmuquic.Epoll.Data.{Entry, EpollServer, Poll, unregister, set_ready, returns, commands}
use cmuquic.Epoll.Data.Ready.{has}
use cmuquic.Epoll.Registry.Kernel.{PollLaws}
use cmuquic.Alarms.Data.{Timer, EpollAlarm, Alarms, Firing, sets, cancels}
use cmuquic.Alarms.Data as AlarmData
use cmuquic.Alarms.Registry.{with_world, cancel_impl, unregister_if_registered}
use cmuquic.Alarms.Registry.Armed.{unregister_if_registered-Runs}
use cmuquic.Alarms.Loop.Firings.{IsProper, with_world-Armed}
use cmuquic.Alarms.Loop.Ends.{HostLaws}
use cmuquic.Cycle.{Calls, EpollMain, first_time, wait_for_events_and_execute_callbacks}
use cmuquic.Cycle.Shutdown.{destroy}
use cmuquic.Cycle.Shutdown.Released.{destroy-unregister_if_registered}
use cmuquic.Cycle.Events.{PollKeeps}
use cmuquic.Cycle.Firings.{FiringKeeps}
use cmuquic.Cycle.Executed.{
  AtRest, Idle, CallLaws, IsReady, Punctual, watched_below,
  wait_for_events_and_execute_callbacks-Runs,
}

abbrev Kernel : Type 0
Kernel = ℕ → Bool

abbrev watched : Kernel → ℕ → Bool
watched w q = w q

abbrev with_fd : ℕ → Bool → Alarms Kernel → Alarms Kernel
with_fd fd b s = with_world (λ q. if fd == q then b else s.world q) s

abbrev poll : Poll (Alarms Kernel)
poll = record {
  ctl_add = λ s fd mask. if s.world fd then none else some (with_fd fd true s);
  ctl_mod = λ s fd mask. if s.world fd then some s else none;
  ctl_del = λ s fd. if s.world fd then some (with_fd fd false s) else none;
  on_registration = λ s cb fd mask. s;
  on_modification = λ s cb fd mask. s;
  on_unregistration = λ s cb fd b. s;
  on_event = λ s cb fd events.
      commands (set_ready 4 1) s (λ s1. commands (unregister fd) s1 (λ s2. returns 0 s2));
  epollin = 1;
  epollout = 4;
  epollerr = 8;
  epollhup = 16;
}

abbrev AllKept : Option (Alarms Kernel) → Type 0
AllKept o = (w : Alarms Kernel) → o ≡ some w → AtRest w

poll-PollKeeps : PollKeeps AtRest poll
poll-PollKeeps = record {
  adds = λ s s' fd mask i.
      either_branch AllKept (s.world fd) none _ (λ h w e. absurd (cc))
        (λ h w e. of_eq_some AtRest refl e (moved s i _)) s';
  mods = λ s s' fd mask i.
      either_branch AllKept (s.world fd) (some s) none (λ h w e. of_eq_some AtRest refl e i)
        (λ h w e. absurd (cc)) s';
  dels = λ s s' fd i.
      either_branch AllKept (s.world fd) _ none (λ h w e. of_eq_some AtRest refl e (moved s i _))
        (λ h w e. absurd (cc)) s';
  registrations = λ s cb fd mask i. i;
  modifications = λ s cb fd mask i. i;
  unregistrations = λ s cb fd b i. i;
  events = λ s cb fd mask i. (i, λ s1 i1. (i1, λ s2 i2. i2));
}
  where
    moved : (s : Alarms Kernel) → AtRest s → (k : Kernel) → AtRest (with_world k s)
    moved s i k = (with_world-Armed none k s i.0, i.1)

poll-PollLaws : PollLaws poll (watched_below watched)
poll-PollLaws = record {
  added = λ s fd mask h. rw h (with_fd fd true s, refl, λ q. refl);
  modified = λ s fd mask h. rw h (s, refl, λ q. refl);
  deleted = λ s fd h. rw h (with_fd fd false s, refl, λ q. refl);
  registration = λ s cb fd mask q. refl;
  modification = λ s cb fd mask q. refl;
  unregistration = λ s cb fd b q. refl;
}

-- Alarm 0 returns a time that is past, and any other sets it again.
abbrev resetting : ℤ → EpollServer Kernel → Firing (EpollServer Kernel)
resetting now e = cancels 0 e (λ e1. sets 0 (now +ℤ pos 10) e1 (λ e2. AlarmData.returns (pos 0) e2))

abbrev calls : Calls Kernel
calls = record {
  poll = poll;
  on_alarm = λ now e a. if a == 0 then AlarmData.returns (pos 5) e else resetting now e;
  now_in_usec = λ w. (w, pos 10);
  epoll_wait = λ w ms. some (w, (4, 1) ∷ (7, 1) ∷ []);
}

abbrev first_only : ℕ → Bool
first_only a = a == 0

calls-HostLaws : (now : ℤ) → HostLaws now first_only (calls.on_alarm now)
unfolding cancel_impl
calls-HostLaws now s q t v found off =
    either_branch (λ F. IsProper now first_only t.cb F s) (t.cb == 0)
      (AlarmData.returns (pos 5) s.world) (resetting now s.world)
      (λ here h. (off, ground (arith, here)))
      (λ other s' e.
        let (r, e', d) =
          unregister_if_registered-Runs (some q) 0 (with_world s.world s)
            (with_world-Armed (some q) s.world s v) in
        (
          of_eq_some (λ (x : Alarms (EpollServer Kernel)). (x.objects 0).registered ≡ false) e' e
              d.off,
          ground (arith, +ℤ_parts now (pos 10)),
          λ s'' e'' h. absurd (cc),
        ))

calls-CallLaws : CallLaws watched first_only calls
calls-CallLaws = record {
  poll = poll-PollLaws;
  leaves = λ w cb fd events. (λ q. refl, λ w1. (λ q. refl, λ w2 q. refl));
  rests = poll-PollKeeps;
  proper = calls-HostLaws;
  idles = λ now s a i.
      either_branch (FiringKeeps (Idle watched)) (a == 0) (AlarmData.returns (pos 5) s)
        (resetting now s) (λ here. i) (λ other. (i, λ s1 i1. (i1, λ s2 i2. i2)));
  clock = λ w q. refl;
  waits = λ w ms. (_, refl, λ q. refl);
}

abbrev watched_entry : ℕ → Bool → Entry
watched_entry cb listed = record {
  cb = some cb;
  event_mask = 1;
  events_asserted = 1;
  events_to_fake = 0;
  in_use = false;
  listed = listed;
}

-- Descriptor 3 is ready, descriptor 4 is not, and alarm 1 is due.
abbrev busy : EpollMain Kernel
busy = record {
  state = record {
    world = record {
      world = λ q. if q == 3 then true else q == 4;
      alarm_map = (2, record { time = pos 7; cb = 1 }) ∷ [];
      all_alarms = 1 ∷ [];
      skipped = [];
      next_token = 5;
      objects = λ a. record { registered = a == 1; token = 2; attached = true };
    };
    cb_map = (3, watched_entry 33 true) ∷ (4, watched_entry 44 false) ∷ [];
    ready_list = 3 ∷ [];
    tmp_list = [];
    ready_list_size = 1;
  };
  timeout_in_us = pos 50000;
  recorded_now_in_us = pos 0;
  in_wait = false;
}

busy-IsReady : IsReady watched busy.state
unfolding lookup has contains
busy-IsReady = record {
  descriptors = record {
    distinct = ground arith;
    ready = ground arith;
    tmp = tt;
    size = refl;
    slots = λ q. ground arith;
  };
  tmp = refl;
  alarms = (
    record {
      sorted = ground arith;
      distinct = ground arith;
      simple = ground arith;
      fresh = λ q h. ground arith;
      owned = λ q h. ground arith;
      valid = λ a h. ground arith;
      active = λ q h. absurd (cc);
      known = λ a. ground arith;
    },
    refl,
  );
}

wait_for_events_and_execute_callbacks-Runs_example :
    Runs
      (λ s'.
        IsReady watched s'.state
        × (s'.in_wait ≡ false)
        × (s'.recorded_now_in_us ≡ pos 0)
        × Punctual first_only calls
            (first_time busy.state.world.alarm_map)
            busy.timeout_in_us
            busy.state
            s'.state)
      (wait_for_events_and_execute_callbacks calls busy)
wait_for_events_and_execute_callbacks-Runs_example =
    wait_for_events_and_execute_callbacks-Runs watched first_only calls calls-CallLaws busy
      busy-IsReady refl

destroy-unregister_if_registered_example :
    let s' = destroy (λ w cb fd. w) (λ w q. false) busy.state in
    (s'.cb_map ≡ [])
    × (s'.world.alarm_map ≡ [])
    × ((s'.world.objects 1).registered ≡ false)
    × (unregister_if_registered 1 s'.world ≡ some s'.world)
destroy-unregister_if_registered_example =
    destroy-unregister_if_registered (λ w cb fd. w) (λ w q. false) (λ w cb fd v. v) busy.state 1
      busy-IsReady.alarms.0
