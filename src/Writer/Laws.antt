-- ===== src/Writer/Laws.antt =====
-- quic_default_packet_writer.cc and `WritePacket` of quic_socket_utils.cc: what a write reports.
use cmuquic.Prelude.{ℕ, ◌≡◌, refl, ◌⊎◌, ◌↔◌, true, List, arith}
use cmuquic.Prelude.Int.{pos, ◌≤ℤ◌}
use cmuquic.Net.{Packet, IpEndPoint, write_ok, write_blocked, PacketWriterLaws}
use cmuquic.Socket
use cmuquic.Socket.{Sockets}
use cmuquic.Writer.{
  DefaultPacketWriter, write_packet, is_write_blocked, set_writable, default_packet_writer,
}

module _ {S : Type 0} (K : Sockets S) where
  -- A write reports "ok" exactly when the stack took the packet, and then the number of bytes;
  -- "blocked" exactly when the stack failed with one of the two errors that ask to try again; it
  -- leaves the writer blocked exactly when it was blocked before or the write reported "blocked".
  pub write_packet-status :
      (w : DefaultPacketWriter S) (p : Packet) (self : List ℕ) (peer : IpEndPoint)
      → let r = (K.sendto w.stack w.fd p peer).1 in
        let (w', result) = write_packet K w p self peer in
        ((result.status ≡ write_ok) ↔ (pos 0 ≤ℤ r.code))
        × ((result.status ≡ write_blocked)
            ↔ ((¬ (pos 0 ≤ℤ r.code)) × ((r.errno ≡ K.eagain) ⊎ (r.errno ≡ K.ewouldblock))))
        × (pos 0 ≤ℤ r.code → pos result.value ≡ r.code)
        × (¬ (pos 0 ≤ℤ r.code) → result.value ≡ r.errno)
        × ((is_write_blocked w' ≡ true)
            ↔ ((is_write_blocked w ≡ true) ⊎ (result.status ≡ write_blocked)))
  unfolding write_packet Socket.write_packet is_write_blocked
  write_packet-status w p self peer = ground arith

  -- The writer keeps the laws that the dispatcher and the time-wait list rely on.
  pub default_packet_writer-PacketWriterLaws : PacketWriterLaws (default_packet_writer K)
  unfolding write_packet Socket.write_packet is_write_blocked set_writable
  default_packet_writer-PacketWriterLaws = record {
    blocked_after_write = λ w p self peer h. ground arith;
    writable_after_set = λ w. refl;
  }
