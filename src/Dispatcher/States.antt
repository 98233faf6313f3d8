-- ===== src/Dispatcher/States.antt =====
-- quic_dispatcher.cc: the dispatcher from its constructor on, through any sequence of what may happen
-- to it.
pub mod Reached
use cmuquic.Prelude.{ℕ, Option, none, some, List, [], ◌∷◌, ◌>>=◌}
use cmuquic.Net.{Packet, IpEndPoint}
use cmuquic.Socket.{no_endpoint}
use cmuquic.TimeWait.Expiry.{init, clean_up_old_connection_ids}
use cmuquic.Library.{Reaction}
use cmuquic.Dispatcher.Data.{Dispatcher, Host, world, with_world}
use cmuquic.Dispatcher.Closing.{react, on_delete_sessions_alarm}
use cmuquic.Dispatcher.Routing.{process_packet}
use cmuquic.Dispatcher.Writing.{on_can_write, shutdown}

-- What may happen to a dispatcher: a packet, a writable socket, an alarm of the time-wait list or of the
-- closed sessions, a call of the library on its own account, the end, and a change of the world outside.
pub data Input (W : Type 0) : Type 0 where
  packet : IpEndPoint → IpEndPoint → Packet → Input W
  writable : Input W
  clean_up_alarm : Input W
  delete_sessions_alarm : Input W
  library_calls : (W → Reaction W) → Input W
  shut_down : Input W
  passes : (W → W) → Input W

module _ {Time Delta W : Type 0} (H : Host Time Delta W) where
  -- The constructor, with `InitializeWithWriter` and `SetPacketNum`. The framer begins with a version of
  -- its own.
  unfoldable pub new_dispatcher : W → Delta → List ℕ → ℕ → ℕ → Dispatcher Time Delta W
  new_dispatcher w period supported_versions framer_version packet_num = record {
    channel = record { world = w; write_blocked_list = [] };
    session_map = [];
    time_wait = init H.env w period;
    closed_session_list = [];
    delete_sessions_alarm = none;
    supported_versions = supported_versions;
    packet_num = packet_num;
    current_server_address = no_endpoint;
    current_client_address = no_endpoint;
    current_packet = [];
    framer_version = framer_version;
    visitor_connection_id = 0;
  }

  -- `ConnectionIdCleanUpAlarm::OnAlarm`.
  unfoldable pub on_clean_up_alarm : Dispatcher Time Delta W → Option (Dispatcher Time Delta W)
  on_clean_up_alarm d = clean_up_old_connection_ids H.env (world d) d.time_wait >>= λ tw.
      some (record d { time_wait = tw })

  -- One thing happens.
  abbrev pub happen : Input W → Dispatcher Time Delta W → Option (Dispatcher Time Delta W)
  happen (packet server client p) d = process_packet H server client p d
  happen writable d = on_can_write H d
  happen clean_up_alarm d = on_clean_up_alarm d
  happen delete_sessions_alarm d = some (on_delete_sessions_alarm H d)
  happen (library_calls r) d = react H (r (world d)) d
  happen shut_down d = shutdown H d
  happen (passes f) d = some (with_world (f (world d)) d)

  -- One thing after the other.
  abbrev pub happen_all :
      List (Input W) → Dispatcher Time Delta W → Option (Dispatcher Time Delta W)
  happen_all [] d = some d
  happen_all (i ∷ is) d = happen i d >>= happen_all is
