-- ===== src/Tests/Servers.antt =====
-- A dispatcher with two sessions, an id in time-wait and a blocked socket.
use cmuquic.Prelude.{ℕ, refl, true, none, [], ◌∷◌, arith}
use cmuquic.Prelude.Assoc.{contains}
use cmuquic.Prelude.Int.{pos}
use cmuquic.Blocked.{Channel, time_wait_manager, connection, member}
use cmuquic.TimeWait.Data.{TimeWait, ConnectionIdData, QueuedPacket}
use cmuquic.Library.{Session}
use cmuquic.Dispatcher.Data.{Dispatcher}
use cmuquic.Dispatcher.Invariant.{IsValid}
use cmuquic.Tests.World.{World, client, server}

abbrev pub blocked_world : World
blocked_world = record { fd = pos 3; is_blocked = true; stack = 1000 }

abbrev pub session_5 : Session
session_5 = record { address = 105; connection_id = 5; has_crypto_stream = true; packet_num = 0 }

abbrev pub session_9 : Session
session_9 = record { address = 109; connection_id = 9; has_crypto_stream = true; packet_num = 0 }

abbrev pub late : ConnectionIdData ℕ
late = record { num_packets = 1; version = 25; time_added = 1100; close_packet = none }

abbrev pub answer : QueuedPacket
answer = record { server_address = server; client_address = client; packet = 7 ∷ [] }

abbrev pub empty_answer : QueuedPacket
empty_answer = record { server_address = server; client_address = client; packet = [] }

abbrev pub time_wait : TimeWait ℕ (ℕ × ℕ)
time_wait = record {
  connection_id_map = (7, late) ∷ [];
  pending_packets_queue = answer ∷ empty_answer ∷ [];
  time_wait_period = (200, 0);
  connection_id_clean_up_alarm = none;
}

abbrev pub channel : Channel World
channel = record {
  world = blocked_world;
  write_blocked_list = time_wait_manager ∷ connection 105 ∷ [];
}

abbrev pub two_sessions : Dispatcher ℕ (ℕ × ℕ) World
two_sessions = record {
  channel = channel;
  session_map = (5, session_5) ∷ (9, session_9) ∷ [];
  time_wait = time_wait;
  closed_session_list = [];
  delete_sessions_alarm = none;
  supported_versions = 25 ∷ [];
  packet_num = 0;
  current_server_address = server;
  current_client_address = client;
  current_packet = 1 ∷ [];
  framer_version = 25;
  visitor_connection_id = 0;
}

pub two_sessions-IsValid : IsValid 1 two_sessions
unfolding contains member
two_sessions-IsValid = record {
  distinct = ground arith;
  keyed = (refl, (refl, tt));
  bounded = record { distinct = ground arith; within = omega arith };
  apart = λ q. ground arith;
  unique = ground arith;
  queued = ground arith;
  supports = refl;
}
