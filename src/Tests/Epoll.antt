-- ===== src/Tests/Epoll.antt =====
-- The theorems on the epoll server, on a stack that keeps a set of descriptors.
use cmuquic.Prelude.{
  ℕ, ◌≡◌, refl, Bool, true, false, none, some, [], ◌∷◌, if◌then◌else◌, ◌==◌, Runs, arith, length,
}
use cmuquic.Prelude.Assoc.{lookup, contains}
use cmuquic.Prelude.Int.{pos, negsuc, ◌-ℤ◌}
use cmuquic.Socket.{af_inet, no_endpoint}
use cmuquic.Server.Listening.{QuicServer, SocketCalls, Settings, listen}
use cmuquic.Server.Listening.Outcome.{SocketLaws, Listened, listen-Listened}
use cmuquic.Epoll.Waiting.{IsTimely, timeout_in_ms, wait_time, timeout_in_ms-wait_time}
use cmuquic.Epoll.Data.{Entry, EpollServer, Poll, unregister, set_ready, returns, commands}
use cmuquic.Epoll.Data.Ready.{has}
use cmuquic.Epoll.Registry.Keeps.{Consistent}
use cmuquic.Epoll.Registry.Kernel.{PollLaws}
use cmuquic.Epoll.Loop.{call_ready_list_callbacks, handle_events, dispatch_events}
use cmuquic.Epoll.Loop.Ends.{call_ready_list_callbacks-Runs}
use cmuquic.Epoll.Loop.Calls.{Reported, CalledReady, dispatch_events-Reported}

abbrev Kernel : Type 0
Kernel = ℕ → Bool

abbrev watched : Kernel → ℕ → Bool
watched w q = w q

abbrev with_fd : ℕ → Bool → Kernel → Kernel
with_fd fd b w q = if fd == q then b else w q

-- The callback of each event sets descriptor 4 ready, and unregisters its own.
abbrev poll : Poll Kernel
poll = record {
  ctl_add = λ w fd mask. if w fd then none else some (with_fd fd true w);
  ctl_mod = λ w fd mask. if w fd then some w else none;
  ctl_del = λ w fd. if w fd then some (with_fd fd false w) else none;
  on_registration = λ w cb fd mask. w;
  on_modification = λ w cb fd mask. w;
  on_unregistration = λ w cb fd b. w;
  on_event = λ w cb fd events.
      commands (set_ready 4 1) w (λ w1. commands (unregister fd) w1 (λ w2. returns 0 w2));
  epollin = 1;
  epollout = 4;
  epollerr = 8;
  epollhup = 16;
}

poll-PollLaws : PollLaws poll watched
poll-PollLaws = record {
  added = λ w fd mask h. rw h (with_fd fd true w, refl, λ q. refl);
  modified = λ w fd mask h. rw h (w, refl, λ q. refl);
  deleted = λ w fd h. rw h (with_fd fd false w, refl, λ q. refl);
  registration = λ w cb fd mask q. refl;
  modification = λ w cb fd mask q. refl;
  unregistration = λ w cb fd b q. refl;
}

abbrev watched_entry : ℕ → Bool → Entry
watched_entry cb listed = record {
  cb = some cb;
  event_mask = 1;
  events_asserted = 1;
  events_to_fake = 0;
  in_use = false;
  listed = listed;
}

-- Descriptor 3 is ready, descriptor 4 is not.
abbrev two_fds : EpollServer Kernel
two_fds = record {
  world = with_fd 3 true (with_fd 4 true (λ q. false));
  cb_map = (3, watched_entry 33 true) ∷ (4, watched_entry 44 false) ∷ [];
  ready_list = 3 ∷ [];
  tmp_list = [];
  ready_list_size = 1;
}

two_fds-Consistent : Consistent watched none two_fds
unfolding lookup has contains
two_fds-Consistent = record {
  distinct = ground arith;
  ready = ground arith;
  tmp = tt;
  size = refl;
  slots = λ q. ground arith;
}

call_ready_list_callbacks-Runs_example :
    Runs
      (λ s'.
        Consistent watched none s'
        × (s'.tmp_list ≡ [])
        × (s'.ready_list_size ≡ length s'.ready_list))
      (call_ready_list_callbacks poll two_fds)
call_ready_list_callbacks-Runs_example =
    call_ready_list_callbacks-Runs poll watched poll-PollLaws
      (λ w cb fd events. (λ q. refl, λ w1. (λ q. refl, λ w2 q. refl))) two_fds two_fds-Consistent
      refl

dispatch_events-Reported_example :
    Runs
      (λ s'.
        Consistent watched none s'
        × (s'.tmp_list ≡ [])
        × Reported ((4, 1) ∷ (7, 1) ∷ []) two_fds (handle_events ((4, 1) ∷ (7, 1) ∷ []) two_fds)
        × CalledReady poll (handle_events ((4, 1) ∷ (7, 1) ∷ []) two_fds) s')
      (dispatch_events poll ((4, 1) ∷ (7, 1) ∷ []) two_fds)
dispatch_events-Reported_example =
    dispatch_events-Reported poll watched poll-PollLaws
      (λ w cb fd events. (λ q. refl, λ w1. (λ q. refl, λ w2 q. refl))) ((4, 1) ∷ (7, 1) ∷ [])
      two_fds two_fds-Consistent refl

-- The alarm is 2.5 seconds ahead, and there is no default timeout.
timeout_in_ms-wait_time_example :
    IsTimely
      (negsuc 0)
      (pos 3500000 -ℤ pos 1000000)
      false
      (timeout_in_ms (wait_time (negsuc 0) (pos 1000000) (some (pos 3500000))) false)
unfolding ◌-ℤ◌
timeout_in_ms-wait_time_example =
    timeout_in_ms-wait_time (negsuc 0) (pos 1000000) (pos 3500000) false (omega arith) (omega arith)

abbrev calls : SocketCalls Kernel
calls = record {
  sockets = record {
    sendto = λ s fd p peer. (s, record { code = pos 1; errno = 0 });
    recvfrom = λ s fd n. (
      s,
      record { code = pos 0; errno = 0 },
      record { bytes = []; family = af_inet; sender = no_endpoint },
    );
    setsockopt = λ s fd o v. (s, pos 0);
    eagain = 11;
    ewouldblock = 11;
    sys_eagain = 11;
  };
  socket = λ w f. (w, pos 9);
  bind = λ w fd a. (w, pos 0);
  get_port = λ w fd. (w, some 4433);
}

abbrev server : QuicServer Kernel
server = record {
  epoll = two_fds;
  port = 0;
  fd = negsuc 0;
  overflow_supported = false;
  listening = false;
}

abbrev settings : Settings
settings = record { epoll_flags = 5; buffer_size = 65536; callback = 99 }

calls-SocketLaws : SocketLaws calls watched
calls-SocketLaws = record {
  socket_keeps = λ w f q. refl;
  bind_keeps = λ w fd a q. refl;
  port_keeps = λ w fd q. refl;
  option_keeps = λ w fd o n q. refl;
}

listen-Listened_example :
    Runs
      (Listened watched two_fds.cb_map false)
      (listen calls poll settings no_endpoint af_inet server)
listen-Listened_example =
    listen-Listened watched calls poll settings calls-SocketLaws poll-PollLaws no_endpoint af_inet
      server two_fds-Consistent
