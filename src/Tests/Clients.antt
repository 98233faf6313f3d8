-- ===== src/Tests/Clients.antt =====
-- A client on a stack that keeps a set of descriptors, and a handshake that takes as many waits as its
-- world has left.
mod Opening
mod Waits
mod Events
use cmuquic.Prelude.{
  ℕ, ◌-◌, ◌<◌, ◌≡◌, refl, ap, ◌&&◌, Bool, true, false, not, Option, none, some, List, [], ◌∷◌, ◌==◌,
  if◌then◌else◌, Runs, arith, either_branch, of_eq_some, >>=-eq-some,
}
use cmuquic.Prelude.Assoc.{lookup, contains}
use cmuquic.Prelude.Int.{pos, negsuc}
use cmuquic.Socket.{ReadResult, af_inet, no_endpoint}
use cmuquic.Epoll.Data.{Entry, Poll, returns}
use cmuquic.Epoll.Data.Ready.{has}
use cmuquic.Epoll.Registry.Kernel.{PollLaws}
use cmuquic.Alarms.Data.{Alarms}
use cmuquic.Alarms.Data as AlarmData
use cmuquic.Alarms.Registry.{with_world}
use cmuquic.Alarms.Loop.Firings.{with_world-Armed}
use cmuquic.Cycle.{Calls}
use cmuquic.Cycle.Events.{PollKeeps}
use cmuquic.Cycle.Executed.{AtRest, CallLaws, IsReady, watched_below}
use cmuquic.Cycle.Invariants.{WaitTakes, wait_for_events_and_execute_callbacks-Keeps}
use cmuquic.Server.Listening.{Settings}
use cmuquic.Client.Data.{QuicClient, Objects, ClientCalls, Running, alarms, new_client}
use cmuquic.Client.Opening.{initialize}
use cmuquic.Client.Opening.Outcome.{ClientLaws}
use cmuquic.Client.Opening.Initialized.{Initialized, initialize-Initialized}
use cmuquic.Server.{EventBits}
use cmuquic.Client.Lifetime
use cmuquic.Client.Lifetime.{is_pending, start_connect, wait_for_events, connect, disconnect}
use cmuquic.Client.Lifetime.Closed.{ObjectLaws, Disconnected, StaysClosed, disconnect-Disconnected}
use cmuquic.Client.Lifetime.Connects.{
  Nears, Connected, connect-Connected, disconnect-Disconnected_again,
}

-- The descriptors that are watched, the waits that the handshake still takes, and whether it was closed.
pub record World : Type 0 where
  fds : ℕ → Bool
  left : ℕ
  shut : Bool

abbrev pub watched : World → ℕ → Bool
watched w q = w.fds q

abbrev with_fd : ℕ → Bool → Alarms World → Alarms World
with_fd fd b s = with_world (record s.world { fds = λ q. if fd == q then b else s.world.fds q }) s

abbrev pub poll : Poll (Alarms World)
poll = record {
  ctl_add = λ s fd mask. if s.world.fds fd then none else some (with_fd fd true s);
  ctl_mod = λ s fd mask. if s.world.fds fd then some s else none;
  ctl_del = λ s fd. if s.world.fds fd then some (with_fd fd false s) else none;
  on_registration = λ s cb fd mask. s;
  on_modification = λ s cb fd mask. s;
  on_unregistration = λ s cb fd b. s;
  on_event = λ s cb fd events. returns 0 s;
  epollin = 1;
  epollout = 4;
  epollerr = 8;
  epollhup = 16;
}

-- A predicate that does not look at the descriptors is kept.
module _ (I : Alarms World → Type 0)
    (same : (s : Alarms World) (fd : ℕ) (b : Bool) → I s → I (with_fd fd b s)) where
  Kept : Option (Alarms World) → Type 0
  Kept o = (w : Alarms World) → o ≡ some w → I w

  pub poll-PollKeeps : PollKeeps I poll
  unfolding Kept
  poll-PollKeeps = record {
    adds = λ s s' fd mask i.
        either_branch Kept (s.world.fds fd) none _ (λ h w e. absurd (cc))
          (λ h w e. of_eq_some I refl e (same s fd true i)) s';
    mods = λ s s' fd mask i.
        either_branch Kept (s.world.fds fd) (some s) none (λ h w e. of_eq_some I refl e i)
          (λ h w e. absurd (cc)) s';
    dels = λ s s' fd i.
        either_branch Kept (s.world.fds fd) _ none
          (λ h w e. of_eq_some I refl e (same s fd false i)) (λ h w e. absurd (cc)) s';
    registrations = λ s cb fd mask i. i;
    modifications = λ s cb fd mask i. i;
    unregistrations = λ s cb fd b i. i;
    events = λ s cb fd mask i. i;
  }

pub poll-PollLaws : PollLaws poll (watched_below watched)
poll-PollLaws = record {
  added = λ s fd mask h. rw h (with_fd fd true s, refl, λ q. refl);
  modified = λ s fd mask h. rw h (s, refl, λ q. refl);
  deleted = λ s fd h. rw h (with_fd fd false s, refl, λ q. refl);
  registration = λ s cb fd mask q. refl;
  modification = λ s cb fd mask q. refl;
  unregistration = λ s cb fd b q. refl;
}

moved-AtRest : (s : Alarms World) (k : World) → AtRest s → AtRest (with_world k s)
moved-AtRest s k i = (with_world-Armed none k s i.0, i.1)

abbrev pub calls : Calls World
calls = record {
  poll = poll;
  on_alarm = λ now e a. AlarmData.returns (pos 0) e;
  now_in_usec = λ w. (w, pos 10);
  epoll_wait = λ w ms. some (record w { left = w.left - 1 }, (9, 1) ∷ []);
}

pub calls-CallLaws : CallLaws watched (λ a. false) calls
calls-CallLaws = record {
  poll = poll-PollLaws;
  leaves = λ w cb fd events q. refl;
  rests = poll-PollKeeps AtRest (λ s fd b. moved-AtRest s _);
  proper = λ now s q t v found off h. absurd (cc);
  idles = λ now s a i. i;
  clock = λ w q. refl;
  waits = λ w ms. (_, refl, λ q. refl);
}

abbrev pub objects : Objects (Alarms World)
objects = record {
  new_writer = λ a fd. (a, 50);
  set_writable = λ a x. a;
  new_session = λ a c p x. (a, 60);
  delete_session = λ a x. a;
  delete_writer = λ a x. a;
  initialize_session = λ a x. a;
  crypto_connect = λ a x. a;
  is_encryption_established = λ a x. a.world.left == 0;
  connected = λ a x. not a.world.shut;
  send_connection_close = λ a x e. with_world (record a.world { shut = true }) a;
  on_can_write = λ a x. a;
  process_udp_packet = λ a x self peer p. a;
  create_client_stream = λ a x. (a, 70);
  peer_going_away = 16;
  minimum_window = 16384;
}

pub objects-ObjectLaws : ObjectLaws watched objects
objects-ObjectLaws = record {
  writer_made = λ a fd v. (v, λ q. refl);
  session_made = λ a c p x v. (v, λ q. refl);
  session_gone = λ a x v. (v, λ q. refl);
  writer_gone = λ a x v. (v, λ q. refl);
  begun = λ a x v. (v, λ q. refl);
  crypto = λ a x v. (v, λ q. refl);
  closing = λ a x e v. (moved-AtRest a _ v, λ q. refl);
  closed = λ a x e. refl;
}

abbrev pub client_calls : ClientCalls World
client_calls = record {
  calls = record {
    sockets = record {
      sendto = λ s fd p peer. (s, record { code = pos 1; errno = 0 });
      recvfrom = λ s fd n. (
        s,
        record { code = pos 0; errno = 0 },
        record { bytes = []; family = af_inet; sender = no_endpoint },
      );
      setsockopt = λ s fd o v. (s, pos 0);
      eagain = 11;
      ewouldblock = 11;
      sys_eagain = 11;
    };
    socket = λ w f. (w, pos 9);
    bind = λ w fd a. (w, pos 0);
    get_port = λ w fd. (w, some 4433);
  };
  close = λ w fd. w;
  sin_port = λ w fd. (w, none);
  sin_port_before = 777;
}

pub client_calls-ClientLaws : ClientLaws client_calls watched
client_calls-ClientLaws = record {
  sockets = record {
    socket_keeps = λ w f q. refl;
    bind_keeps = λ w fd a q. refl;
    port_keeps = λ w fd q. refl;
    option_keeps = λ w fd o n q. refl;
  };
  port_keeps = λ w fd q. refl;
  close_keeps = λ w fd h q. refl;
}

abbrev pub settings : Settings
settings = record { epoll_flags = 5; buffer_size = 65536; callback = 99 }

-- The alarms of a world in which some descriptors are watched.
abbrev pub alarms_with : (ℕ → Bool) → Alarms World
alarms_with fds = record {
  world = record { fds = fds; left = 3; shut = false };
  alarm_map = [];
  all_alarms = [];
  skipped = [];
  next_token = 0;
  objects = λ a. AlarmData.new_alarm;
}

-- A client with an epoll server that has some entries, and watches some descriptors.
abbrev pub client_with : QuicClient → List (ℕ × Entry) → (ℕ → Bool) → Running World
client_with c entries fds = record {
  client = c;
  epoll = record {
    state = record {
      world = alarms_with fds;
      cb_map = entries;
      ready_list = [];
      tmp_list = [];
      ready_list_size = 0;
    };
    timeout_in_us = pos 0;
    recorded_now_in_us = pos 0;
    in_wait = false;
  };
}

-- A client that was not initialized.
abbrev pub made : QuicClient
unfolding new_client
made =
    new_client (record { address = 10 ∷ 0 ∷ 0 ∷ 1 ∷ []; port = 443 })
      (record { stream = 16384; session = 16384 })

abbrev pub fresh : Running World
unfolding made AlarmData.new_alarm
fresh = client_with made [] (λ q. false)

-- A client that is connected by the socket 9, which is registered.
abbrev pub online : Running World
unfolding made AlarmData.new_alarm
online =
    client_with
      (record made { fd = pos 9; initialized = true; writer = some 50; session = some 60 })
      ((
        9,
        record {
          cb = some 99;
          event_mask = 5;
          events_asserted = 0;
          events_to_fake = 0;
          in_use = false;
          listed = false;
        },
      )
        ∷ [])
      (λ q. 9 == q)

-- No alarm was ever registered.
pub unarmed-AtRest : (fds : ℕ → Bool) → AtRest (alarms_with fds)
unfolding lookup has contains AlarmData.new_alarm
unarmed-AtRest fds = (
  record {
    sorted = tt;
    distinct = tt;
    simple = tt;
    fresh = λ q h. absurd (cc);
    owned = λ q h. refl;
    valid = λ a h. absurd (cc);
    active = λ q h. absurd (cc);
    known = λ a. refl;
  },
  refl,
)

pub fresh-IsReady : IsReady watched fresh.epoll.state
unfolding lookup has fresh
fresh-IsReady = record {
  descriptors = record {
    distinct = tt;
    ready = tt;
    tmp = tt;
    size = refl;
    slots = λ q. ground arith;
  };
  tmp = refl;
  alarms = unarmed-AtRest (λ q. false);
}

pub online-IsReady : IsReady watched online.epoll.state
unfolding lookup has contains online
online-IsReady = record {
  descriptors = record {
    distinct = (refl, tt);
    ready = tt;
    tmp = tt;
    size = refl;
    slots = λ q. ground arith;
  };
  tmp = refl;
  alarms = unarmed-AtRest (λ q. 9 == q);
}
