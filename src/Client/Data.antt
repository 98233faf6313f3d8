-- ===== src/Client/Data.antt =====
-- quic_client.{h,cc}: the members of the client, and what it calls.
use cmuquic.Prelude.{
  ℕ, ◌*◌, Bool, false, not, is_empty, Option, none, List, [], ◌∷◌, ◌==◌, if◌then◌else◌,
}
use cmuquic.Prelude.Int.{ℤ, negsuc}
use cmuquic.Net.{Packet, IpEndPoint, Windows}
use cmuquic.Socket.{Family, af_inet, no_endpoint}
use cmuquic.Epoll.Data.{EpollServer}
use cmuquic.Alarms.Data.{Alarms}
use cmuquic.Cycle.{EpollMain}
use cmuquic.Server.Listening.{SocketCalls}

-- The members of `QuicClient`; the session and the writer are the addresses of objects.
pub record QuicClient : Type 0 where
  pub server_address : IpEndPoint
  pub config : Windows
  pub client_address : IpEndPoint
  pub bind_to_address : List ℕ
  pub local_port : ℕ
  pub writer : Option ℕ
  pub session : Option ℕ
  pub fd : ℤ
  pub initialized : Bool
  pub packets_dropped : ℕ
  pub overflow_supported : Bool

-- The objects that the client makes and calls: sessions with their connections, and writers. They set
-- and cancel alarms, so that they act on the state of the alarms.
pub record Objects (A : Type 0) : Type 0 where
  pub new_writer : A → ℤ → A × ℕ
  pub set_writable : A → ℕ → A
  pub new_session : A → Windows → IpEndPoint → ℕ → A × ℕ
  pub delete_session : A → ℕ → A
  pub delete_writer : A → ℕ → A
  pub initialize_session : A → ℕ → A
  pub crypto_connect : A → ℕ → A
  pub is_encryption_established : A → ℕ → Bool
  pub connected : A → ℕ → Bool
  pub send_connection_close : A → ℕ → ℕ → A
  pub on_can_write : A → ℕ → A
  pub process_udp_packet : A → ℕ → IpEndPoint → IpEndPoint → Packet → A
  pub create_client_stream : A → ℕ → A × ℕ
  pub peer_going_away : ℕ
  pub minimum_window : ℕ

-- The calls that make a socket; `sin_port` is `getsockname`, with the port as it stands in the address;
-- `sin_port_before` is that number in memory that was never written.
pub record ClientCalls (W : Type 0) : Type 0 where
  pub calls : SocketCalls W
  pub close : W → ℤ → W
  pub sin_port : W → ℤ → W × Option ℕ
  pub sin_port_before : ℕ

-- The constructor.
unfoldable pub new_client : IpEndPoint → Windows → QuicClient
new_client server_address config = record {
  server_address = server_address;
  config = config;
  client_address = no_endpoint;
  bind_to_address = [];
  local_port = 0;
  writer = none;
  session = none;
  fd = negsuc 0;
  initialized = false;
  packets_dropped = 0;
  overflow_supported = false;
}

-- The address that the socket is bound to.
unfoldable pub bound_address : Family → QuicClient → IpEndPoint
bound_address af_inet c =
    let any = 0 ∷ 0 ∷ 0 ∷ 0 ∷ [] in
    if not (is_empty c.bind_to_address)
    then record { address = c.bind_to_address; port = c.local_port }
    else record { address = any; port = c.local_port }
bound_address _ c =
    let any = 0 ∷ 0 ∷ 0 ∷ 0 ∷ 0 ∷ 0 ∷ 0 ∷ 0 ∷ 0 ∷ 0 ∷ 0 ∷ 0 ∷ 0 ∷ 0 ∷ 0 ∷ 0 ∷ [] in
    if not (is_empty c.bind_to_address)
    then record { address = c.bind_to_address; port = c.local_port }
    else record { address = any; port = c.local_port }

-- The windows that `Initialize` sets, where the config has the least ones.
unfoldable pub initial_windows : ℕ → Windows → Windows
initial_windows least config =
    let window = 10 * 1024 * 1024 in
    record {
      stream = if config.stream == least then window else config.stream;
      session = if config.session == least then window else config.session;
    }

-- The client with the epoll server that it uses.
pub record Running (W : Type 0) : Type 0 where
  pub client : QuicClient
  pub epoll : EpollMain W

module _ {W : Type 0} where
  -- The state of the descriptors, and of the alarms.
  abbrev pub with_state : EpollServer (Alarms W) → Running W → Running W
  with_state e r = record r { epoll = record r.epoll { state = e } }

  abbrev pub alarms : Running W → Alarms W
  alarms r = r.epoll.state.world

  abbrev pub with_alarms : Alarms W → Running W → Running W
  with_alarms a r = record r {
    epoll = record r.epoll { state = record r.epoll.state { world = a } };
  }

  abbrev pub with_client : QuicClient → Running W → Running W
  with_client c r = record r { client = c }
