-- ===== src/Tests/World.antt =====
-- A small world: a stack that is its clock, a socket that blocks on an empty packet, and a library.
use cmuquic.Prelude.{
  ℕ, refl, ◌+◌, ◌-◌, true, false, some, [], ◌∷◌, ltb, if◌then◌else◌, is_empty, length, arith,
}
use cmuquic.Prelude.Int.{pos, negsuc}
use cmuquic.Net.{IpEndPoint, TimeOps, TimeLaws}
use cmuquic.Socket.{Sockets, af_inet}
use cmuquic.Writer.{DefaultPacketWriter, default_packet_writer}
use cmuquic.Writer.Laws.{default_packet_writer-PacketWriterLaws}
use cmuquic.TimeWait.Data.{Env}
use cmuquic.Library.{
  Library, done, calls, connection_closed, session_blocked, finished, public_header,
  unauthenticated_header,
}
use cmuquic.Dispatcher.Data.{Host}
use cmuquic.Dispatcher.Invariant.{Laws}
use cmuquic.Dispatcher.Closing.Blocking.{BlockingLaws}

-- A point in time is the count of ticks until the end of time, and an interval a difference.
abbrev pub ticks : TimeOps ℕ (ℕ × ℕ)
ticks = record {
  time_gt = λ a b. ltb a b;
  add = λ t d. t + d.1 - d.0;
  subtract = λ a b. (b, a);
  subtract_delta = λ t d. t + d.0 - d.1;
  delta_lt = λ a b. ltb (a.0 + b.1) (b.0 + a.1);
  delta_zero = (0, 0);
  infinite = 0;
}

pub ticks-TimeLaws : TimeLaws ticks
ticks-TimeLaws = record {
  not_gt_trans = λ a b c p q. ground arith;
  gt_infinite = λ a. ground arith;
  add-subtract = λ a b. omega arith;
  expiry = λ a b d. ground arith;
}

abbrev pub client : IpEndPoint
client = record { address = 10 ∷ 0 ∷ 0 ∷ 2 ∷ []; port = 4000 }

abbrev pub server : IpEndPoint
server = record { address = 10 ∷ 0 ∷ 0 ∷ 1 ∷ []; port = 443 }

abbrev pub sockets : Sockets ℕ
sockets = record {
  sendto = λ s fd p peer.
      if is_empty p
      then (s, record { code = negsuc 0; errno = 11 })
      else (s, record { code = pos (length p); errno = 0 });
  recvfrom = λ s fd n. (
    s,
    record { code = pos 1; errno = 0 },
    record { bytes = 1 ∷ []; family = af_inet; sender = client },
  );
  setsockopt = λ s fd o v. (s, pos 0);
  eagain = 11;
  ewouldblock = 11;
  sys_eagain = 11;
}

abbrev pub World : Type 0
World = DefaultPacketWriter ℕ

abbrev pub env : Env ℕ (ℕ × ℕ) World
env = record {
  time = ticks;
  writer = default_packet_writer sockets;
  now = λ w. w.stack;
  max_connections = pos 2;
  build_public_reset_packet = λ p. p.connection_id ∷ [];
}

-- No ids at all may wait.
abbrev pub closed_env : Env ℕ (ℕ × ℕ) World
closed_env = record env { max_connections = pos 0 }

abbrev pub library : Library World
library = record {
  new_session = λ w id peer. (w, id + 100);
  initialize_session = λ w a. w;
  session_connection_closed = λ w a e f. w;
  cancel_outstanding_callbacks = λ w a. w;
  session_write_blocked = λ w a. w;
  delete_session = λ w a. w;
  process_udp_packet = λ w s self peer p. calls (session_blocked s) w (λ w'. done w');
  connection_on_can_write = λ w a. done w;
  send_connection_close = λ w s e. calls (connection_closed s e false) w (λ w'. done w');
  release_connection_close_packet = λ w a. (w, some (a ∷ []));
  connection_version = λ w a. 25;
  is_supported_version = λ v. true;
  framer_run = λ v p.
      public_header
        (record { connection_id = 7; reset_flag = false; version_flag = true; versions = 25 ∷ [] })
        (λ asked v'. if asked then unauthenticated_header 7 1 (λ b. finished) else finished);
  peer_going_away = 16;
}

abbrev pub host : Host ℕ (ℕ × ℕ) World
host = record { env = env; library = library }

pub host-Laws : Laws 1 host
host-Laws = record {
  time = ticks-TimeLaws;
  writer = default_packet_writer-PacketWriterLaws sockets;
  maximum = refl;
}

pub host-BlockingLaws : BlockingLaws host
host-BlockingLaws = record {
  closed_keeps = λ w a e f. ground arith;
  cancel_keeps = λ w a. ground arith;
  blocked_keeps = λ w a. ground arith;
  release_keeps = λ w a. ground arith;
}
