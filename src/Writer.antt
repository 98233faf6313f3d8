-- ===== src/Writer.antt =====
-- net/tools/quic/quic_default_packet_writer.{h,cc}: the packet writer over one socket.
pub mod Laws
use cmuquic.Prelude.{ℕ, Bool, true, false, List}
use cmuquic.Prelude.Int.{ℤ}
use cmuquic.Net.{Packet, IpEndPoint, WriteStatus, WriteResult, write_blocked, PacketWriter}
use cmuquic.Socket
use cmuquic.Socket.{Sockets}

-- `QuicDefaultPacketWriter`: its members, and the state of the stack that it writes to.
pub record DefaultPacketWriter (S : Type 0) : Type 0 where
  pub fd : ℤ
  pub is_blocked : Bool
  pub stack : S

-- The test of `WritePacket` on the status.
abbrev pub blocks : WriteStatus → Bool → Bool
blocks write_blocked b = true
blocks _ b = b

module _ {S : Type 0} where
  -- The constructor.
  unfoldable pub init : ℤ → S → DefaultPacketWriter S
  init fd s = record { fd = fd; is_blocked = false; stack = s }

  -- `IsWriteBlocked`.
  unfoldable pub is_write_blocked : DefaultPacketWriter S → Bool
  is_write_blocked w = w.is_blocked

  -- `IsWriteBlockedDataBuffered`.
  unfoldable pub is_write_blocked_data_buffered : DefaultPacketWriter S → Bool
  is_write_blocked_data_buffered w = false

  -- `SetWritable`.
  unfoldable pub set_writable : DefaultPacketWriter S → DefaultPacketWriter S
  set_writable w = record w { is_blocked = false }

module _ {S : Type 0} (K : Sockets S) where
  -- `WritePacket`.
  unfoldable pub write_packet :
      DefaultPacketWriter S → Packet → List ℕ → IpEndPoint → DefaultPacketWriter S × WriteResult
  write_packet w buffer self peer =
      let (s', result) = Socket.write_packet K w.stack w.fd buffer self peer in
      (record w { is_blocked = blocks result.status w.is_blocked; stack = s' }, result)

  -- The class as an implementation of the interface.
  abbrev pub default_packet_writer : PacketWriter (DefaultPacketWriter S)
  default_packet_writer = record {
    write_packet = write_packet;
    is_write_blocked = is_write_blocked;
    is_write_blocked_data_buffered = is_write_blocked_data_buffered;
    set_writable = set_writable;
  }
