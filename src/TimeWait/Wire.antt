-- ===== src/TimeWait/Wire.antt =====
-- quic_time_wait_list_manager.cc: the answers to late packets, and the queue of those that wait for
-- the socket. `none` is a packet for a connection id that is not in the list, where a DCHECK fails.
pub mod Pending
pub mod Progress
pub mod Throttle
use cmuquic.Prelude.{
  ℕ, zero, suc, ◌+◌, ◌-◌, ◌%◌, ◌^◌, bit_and, ◌≡◌, Bool, true, false, ◌&&◌, not, Option, none, some,
  List, [], ◌∷◌, ◌++◌, ◌==◌, ltb, leb, if◌then◌else◌, length, is_empty, ◌>>=◌,
}
use cmuquic.Prelude.Assoc.{lookup, contains, erase, assign}
use cmuquic.Prelude.Int.{ℤ, pos, ltb_ℤ, leb_ℤ}
use cmuquic.Net.{
  Packet, IpEndPoint, WriteStatus, WriteResult, write_ok, write_blocked, write_error, PacketWriter,
  TimeOps,
}
use cmuquic.Blocked.{time_wait_manager, Channel, on_write_blocked}
use cmuquic.TimeWait.Data.{
  Env, PublicResetPacket, ConnectionIdData, QueuedPacket, TimeWait, should_send_response,
  next_count,
}

module _ {Time Delta : Type 0} where
  -- The packet count of an id goes up by one.
  abbrev pub counted : ℕ → ConnectionIdData Time → TimeWait Time Delta → TimeWait Time Delta
  counted id d m = record m {
    connection_id_map =
        assign id (record d { num_packets = next_count d.num_packets }) m.connection_id_map;
  }

module _ {Time Delta W : Type 0} (E : Env Time Delta W) where
  -- `WriteToWire`.
  unfoldable pub write_to_wire : QueuedPacket → Channel W → Channel W × Bool
  write_to_wire q c =
      if E.writer.is_write_blocked c.world
      then (on_write_blocked E.writer time_wait_manager c, false)
      else let (w', result) =
          E.writer.write_packet c.world q.packet q.server_address.address q.client_address in
        let c' : Channel W = record c { world = w' } in
        elim result.status [
          | write_blocked ↦ (
            on_write_blocked E.writer time_wait_manager c',
            E.writer.is_write_blocked_data_buffered w',
          )
          | _ ↦ (c', true)
        ]

  -- `SendOrQueuePacket`.
  unfoldable pub send_or_queue_packet :
      QueuedPacket → TimeWait Time Delta → Channel W → TimeWait Time Delta × Channel W
  send_or_queue_packet q m c =
      let (c', consumed) = write_to_wire q c in
      if consumed
      then (m, c')
      else (record m { pending_packets_queue = m.pending_packets_queue ++ q ∷ [] }, c')

  -- `SendPublicReset`, which calls `BuildPublicReset`.
  unfoldable pub send_public_reset :
      IpEndPoint
      → IpEndPoint
      → ℕ
      → ℕ
      → TimeWait Time Delta
      → Channel W
      → TimeWait Time Delta × Channel W
  send_public_reset server client id sequence_number m c =
      let reset : PublicResetPacket = record {
        connection_id = id;
        reset_flag = true;
        version_flag = false;
        rejected_sequence_number = sequence_number;
        nonce_proof = 1010101;
        client_address = client;
      } in
      send_or_queue_packet
        (record {
          server_address = server;
          client_address = client;
          packet = E.build_public_reset_packet reset;
        })
        m c

  -- What `ProcessPacket` answers with, once it has decided to answer.
  unfoldable pub respond :
      IpEndPoint
      → IpEndPoint
      → ℕ
      → ℕ
      → Option Packet
      → TimeWait Time Delta
      → Channel W
      → TimeWait Time Delta × Channel W
  respond server client id sequence_number (some close) m c =
      send_or_queue_packet
        (record { server_address = server; client_address = client; packet = close }) m c
  respond server client id sequence_number none m c =
      send_public_reset server client id sequence_number m c

  -- `ProcessPacket`.
  unfoldable pub process_packet :
      IpEndPoint
      → IpEndPoint
      → ℕ
      → ℕ
      → TimeWait Time Delta
      → Channel W
      → Option (TimeWait Time Delta × Channel W)
  process_packet server client id sequence_number m c = elim (lookup id m.connection_id_map) [
    | none ↦ none
    | some d ↦
        if not (should_send_response (next_count d.num_packets))
        then some (counted id d m, c)
        else some (respond server client id sequence_number d.close_packet (counted id d m) c)
  ]

  -- `OnCanWrite`: the queue that is left, after the packets in front have gone out.
  unfoldable pub flush : List QueuedPacket → Channel W → List QueuedPacket × Channel W
  flush [] c = ([], c)
  flush (q ∷ qs) c =
      let rest = flush qs (write_to_wire q c).0 in
      if not (write_to_wire q c).1 then (q ∷ qs, (write_to_wire q c).0) else rest

  unfoldable pub on_can_write : TimeWait Time Delta → Channel W → TimeWait Time Delta × Channel W
  on_can_write m c =
      let (queue, c') = flush m.pending_packets_queue c in
      (record m { pending_packets_queue = queue }, c')
