-- ===== src/Dispatcher/Data.antt =====
-- The state of the dispatcher of quic_dispatcher.{h,cc}.
use cmuquic.Prelude.{ℕ, Option, List}
use cmuquic.Net.{Packet, IpEndPoint}
use cmuquic.Blocked.{BlockedWriter, Channel}
use cmuquic.TimeWait.Data.{Env, TimeWait}
use cmuquic.Library.{Library, Session}

-- The members of `QuicDispatcher` that change, and its framer's version and the connection id that
-- its framer visitor keeps. The hash map of sessions is a list; alarms are their deadlines.
pub record Dispatcher (Time Delta W : Type 0) : Type 0 where
  pub channel : Channel W
  pub session_map : List (ℕ × Session)
  pub time_wait : TimeWait Time Delta
  pub closed_session_list : List Session
  pub delete_sessions_alarm : Option Time
  pub supported_versions : List ℕ
  pub packet_num : ℕ
  pub current_server_address : IpEndPoint
  pub current_client_address : IpEndPoint
  pub current_packet : Packet
  pub framer_version : ℕ
  pub visitor_connection_id : ℕ

-- What the dispatcher stands on.
pub record Host (Time Delta W : Type 0) : Type 0 where
  pub env : Env Time Delta W
  pub library : Library W

module _ {Time Delta W : Type 0} where
  abbrev pub world : Dispatcher Time Delta W → W
  world d = d.channel.world

  abbrev pub with_world : W → Dispatcher Time Delta W → Dispatcher Time Delta W
  with_world w d = record d { channel = record (d.channel) { world = w } }

  -- The dispatcher with the write-blocked list `rest`.
  abbrev pub without_first : List BlockedWriter → Dispatcher Time Delta W → Dispatcher Time Delta W
  without_first rest d = record d { channel = record (d.channel) { write_blocked_list = rest } }
