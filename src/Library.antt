-- ===== src/Library.antt =====
-- What the server uses of the QUIC library: sessions, connections and the framer, as an interface
-- over the state `W` of the world outside the server.
-- A call of a connection may call back into the server's session before it returns. Such a call is
-- a `Reaction`: the library runs up to a callback, and goes on with the world that this returns.
use cmuquic.Prelude.{ℕ, Bool, Option, List}
use cmuquic.Net.{Packet, IpEndPoint}

-- `QuicPacketPublicHeader`.
pub record PublicHeader : Type 0 where
  pub connection_id : ℕ
  pub reset_flag : Bool
  pub version_flag : Bool
  pub versions : List ℕ

-- A session with its connection: the address of the object, the id of the connection, whether the
-- crypto stream is set, and the number of packets to send (the bit pattern of an int).
pub record Session : Type 0 where
  pub address : ℕ
  pub connection_id : ℕ
  pub has_crypto_stream : Bool
  pub packet_num : ℕ

-- The calls of the library into a session: `OnConnectionClosed(error, from_peer)` and
-- `OnWriteBlocked()`.
pub data Callback : Type 0 where
  connection_closed : Session → ℕ → Bool → Callback
  session_blocked : Session → Callback

pub data Reaction (W : Type 0) : Type 0 where
  done : W → Reaction W
  calls : Callback → W → (W → Reaction W) → Reaction W

-- A run of `QuicFramer::ProcessPacket`: the calls of the visitor, and what follows on its answer.
-- After the public header it also depends on the framer's version, which the visitor may set.
pub data FramerRun : Type 0 where
  finished : FramerRun
  error : ℕ → FramerRun → FramerRun
  public_header : PublicHeader → (Bool → ℕ → FramerRun) → FramerRun
  version_mismatch : ℕ → (Bool → FramerRun) → FramerRun
  unauthenticated_header : ℕ → ℕ → (Bool → FramerRun) → FramerRun

pub record Library (W : Type 0) : Type 0 where
  pub new_session : W → ℕ → IpEndPoint → W × ℕ
  pub initialize_session : W → ℕ → W
  pub session_connection_closed : W → ℕ → ℕ → Bool → W
  pub cancel_outstanding_callbacks : W → ℕ → W
  pub session_write_blocked : W → ℕ → W
  pub delete_session : W → ℕ → W
  pub process_udp_packet : W → Session → IpEndPoint → IpEndPoint → Packet → Reaction W
  pub connection_on_can_write : W → ℕ → Reaction W
  pub send_connection_close : W → Session → ℕ → Reaction W
  pub release_connection_close_packet : W → ℕ → W × Option Packet
  pub connection_version : W → ℕ → ℕ
  pub is_supported_version : ℕ → Bool
  pub framer_run : ℕ → Packet → FramerRun
  pub peer_going_away : ℕ
