-- ===== src/TimeWait/Data.antt =====
-- The data of quic_time_wait_list_manager.{h,cc}.
pub mod Backoff
use cmuquic.Prelude.{
  ℕ, zero, suc, ◌+◌, ◌-◌, ◌%◌, ◌^◌, bit_and, ◌≡◌, Bool, true, false, ◌&&◌, not, Option, none, some,
  List, [], ◌∷◌, ◌++◌, ◌==◌, ltb, leb, if◌then◌else◌, length, is_empty, ◌>>=◌,
}
use cmuquic.Prelude.Assoc.{lookup, contains, erase, assign}
use cmuquic.Prelude.Int.{ℤ, pos, ltb_ℤ, leb_ℤ}
use cmuquic.Net.{
  Packet, IpEndPoint, WriteStatus, WriteResult, write_ok, write_blocked, write_error, PacketWriter,
  TimeOps,
}

-- `QuicPublicResetPacket`, as `SendPublicReset` fills it in.
pub record PublicResetPacket : Type 0 where
  pub connection_id : ℕ
  pub reset_flag : Bool
  pub version_flag : Bool
  pub rejected_sequence_number : ℕ
  pub nonce_proof : ℕ
  pub client_address : IpEndPoint

-- What the manager uses of its surroundings: the library's time and packet writer, the clock as the
-- world shows it, `FLAGS_quic_time_wait_list_max_connections`, and the framer's
-- `BuildPublicResetPacket`.
pub record Env (Time Delta W : Type 0) : Type 0 where
  pub time : TimeOps Time Delta
  pub writer : PacketWriter W
  pub now : W → Time
  pub max_connections : ℤ
  pub build_public_reset_packet : PublicResetPacket → Packet

-- `ConnectionIdData`. `num_packets` is the bit pattern of an int.
pub record ConnectionIdData (Time : Type 0) : Type 0 where
  pub num_packets : ℕ
  pub version : ℕ
  pub time_added : Time
  pub close_packet : Option Packet

-- `QueuedPacket`.
pub record QueuedPacket : Type 0 where
  pub server_address : IpEndPoint
  pub client_address : IpEndPoint
  pub packet : Packet

-- The members of `QuicTimeWaitListManager`; the alarm is its deadline, if it is set.
pub record TimeWait (Time Delta : Type 0) : Type 0 where
  pub connection_id_map : List (ℕ × ConnectionIdData Time)
  pub pending_packets_queue : List QueuedPacket
  pub time_wait_period : Delta
  pub connection_id_clean_up_alarm : Option Time

-- `ShouldSendResponse`, on the bit pattern of the count.
unfoldable pub should_send_response : ℕ → Bool
should_send_response n = bit_and n ((n + 2 ^ 32 - 1) % 2 ^ 32) == 0

-- `++num_packets`.
unfoldable pub next_count : ℕ → ℕ
next_count n = (n + 1) % 2 ^ 32
