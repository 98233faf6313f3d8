-- ===== src/TimeWait/Wire/Pending.antt =====
-- quic_time_wait_list_manager.cc: packets that wait for the socket are never forgotten.
use cmuquic.Prelude.{
  ℕ, ◌≡◌, refl, ap, of_eq_some, true, false, Option, none, some, List, [], ◌∷◌, ◌++◌, arith, ◌⊎◌,
  inl, inr, Bool-cases, Option-cases,
}
use cmuquic.Prelude.Assoc.{lookup}
use cmuquic.Net.{Packet, IpEndPoint, PacketWriterLaws}
use cmuquic.Blocked.{BlockedWriter, time_wait_manager, member, Channel, on_write_blocked}
use cmuquic.Blocked.Laws.{member-insert, insert-IsUnique, IsUnique}
use cmuquic.TimeWait.Data.{
  Env, ConnectionIdData, QueuedPacket, TimeWait, should_send_response, next_count,
}
use cmuquic.TimeWait.Wire.{
  write_to_wire, send_or_queue_packet, send_public_reset, respond, counted, process_packet, flush,
  on_can_write,
}

-- A manager with packets left to send waits in the write-blocked list.
abbrev pub IsQueued : {Time Delta W : Type 0} → TimeWait Time Delta → Channel W → Type 0
IsQueued m c =
    (m.pending_packets_queue ≡ []) ⊎ (member time_wait_manager c.write_blocked_list ≡ true)

module _ {Time Delta W : Type 0} (E : Env Time Delta W) where
  pub process_packet_absent :
      (server client : IpEndPoint) (id sn : ℕ) (m : TimeWait Time Delta) (c : Channel W)
      → lookup id m.connection_id_map ≡ none
      → process_packet E server client id sn m c ≡ none
  unfolding process_packet
  process_packet_absent server client id sn m c e = rw (e, process_packet)

  module _ (server client : IpEndPoint) (id sn : ℕ) (m : TimeWait Time Delta) (c : Channel W)
      (d : ConnectionIdData Time) (found : lookup id m.connection_id_map ≡ some d) where
    pub process_packet_due :
        should_send_response (next_count d.num_packets) ≡ true
        → process_packet E server client id sn m c
          ≡ some (respond E server client id sn d.close_packet (counted id d m) c)
    unfolding process_packet
    process_packet_due e = rw (found, process_packet, e)

    pub process_packet_quiet :
        should_send_response (next_count d.num_packets) ≡ false
        → process_packet E server client id sn m c ≡ some (counted id d m, c)
    unfolding process_packet
    process_packet_quiet e = rw (found, process_packet, e)

  pub write_to_wire-keeps :
      (q : QueuedPacket) (c : Channel W) (b : BlockedWriter)
      → member b c.write_blocked_list ≡ true
      → member b (write_to_wire E q c).0.write_blocked_list ≡ true
  unfolding write_to_wire on_write_blocked
  write_to_wire-keeps q c b h =
      ground (arith, member-insert b time_wait_manager c.write_blocked_list)

  pub write_to_wire-IsUnique :
      (q : QueuedPacket) (c : Channel W)
      → IsUnique c.write_blocked_list
      → IsUnique (write_to_wire E q c).0.write_blocked_list
  unfolding write_to_wire on_write_blocked
  write_to_wire-IsUnique q c u =
      ground (arith, insert-IsUnique time_wait_manager c.write_blocked_list u)

  -- An answer changes the queue at most, and no writer waits twice.
  pub send_or_queue_packet-keeps :
      (q : QueuedPacket) (m : TimeWait Time Delta) (c : Channel W)
      → IsUnique c.write_blocked_list
      → ((send_or_queue_packet E q m c).0.connection_id_map ≡ m.connection_id_map)
        × IsUnique (send_or_queue_packet E q m c).1.write_blocked_list
  unfolding send_or_queue_packet
  send_or_queue_packet-keeps q m c u = ground (arith, write_to_wire-IsUnique q c u)

  pub respond-keeps :
      (server client : IpEndPoint) (id sn : ℕ) (close : Option Packet) (m : TimeWait Time Delta)
      (c : Channel W)
      → IsUnique c.write_blocked_list
      → ((respond E server client id sn close m c).0.connection_id_map ≡ m.connection_id_map)
        × IsUnique (respond E server client id sn close m c).1.write_blocked_list
  unfolding respond send_public_reset
  respond-keeps server client id sn none m c u = send_or_queue_packet-keeps _ m c u
  respond-keeps server client id sn (some p) m c u = send_or_queue_packet-keeps _ m c u

  pub flush-IsUnique :
      (qs : List QueuedPacket) (c : Channel W)
      → IsUnique c.write_blocked_list
      → IsUnique (flush E qs c).1.write_blocked_list
  unfolding flush
  flush-IsUnique [] c u = u
  flush-IsUnique (q ∷ qs) c u =
      ground (arith, write_to_wire-IsUnique q c u, flush-IsUnique qs (write_to_wire E q c).0)

  -- The channel after a list of packets has been written.
  pub send_all : List QueuedPacket → Channel W → Channel W
  send_all [] c = c
  send_all (q ∷ qs) c = send_all qs (write_to_wire E q c).0

  -- Each packet of a list is consumed by the writer in its turn.
  abbrev pub Consumed : List QueuedPacket → Channel W → Type 0
  Consumed [] c = Unit {0}
  Consumed (q ∷ qs) c = ((write_to_wire E q c).1 ≡ true) × Consumed qs (write_to_wire E q c).0

  -- How a pass over the queue ends: all is sent, or the first packet that the writer refuses stays
  -- in front, with those behind it.
  pub data Flushed (qs : List QueuedPacket) (c : Channel W) (r : List QueuedPacket × Channel W)
      : Type 0 where
    drained : Consumed qs c → r ≡ ([], send_all qs c) → Flushed qs c r
    stopped :
        (sent : List QueuedPacket) (q : QueuedPacket) (rest : List QueuedPacket)
        → qs ≡ sent ++ q ∷ rest
        → Consumed sent c
        → (write_to_wire E q (send_all sent c)).1 ≡ false
        → r ≡ (q ∷ rest, (write_to_wire E q (send_all sent c)).0)
        → Flushed qs c r

  -- `OnCanWrite` sends the queue in order, and stops at the first packet that is not consumed.
  pub flush-Flushed : (qs : List QueuedPacket) (c : Channel W) → Flushed qs c (flush E qs c)
  unfolding flush send_all
  flush-Flushed [] c = drained tt refl
  flush-Flushed (q ∷ qs) c = elim (Bool-cases (write_to_wire E q c).1) [
    | inl went ↦ rw went (extend (flush-Flushed qs (write_to_wire E q c).0) went)
    | inr stuck ↦ rw stuck (stopped [] q qs refl tt stuck refl)
  ]
    where
      extend :
          {r : List QueuedPacket × Channel W}
          → Flushed qs (write_to_wire E q c).0 r
          → (write_to_wire E q c).1 ≡ true
          → Flushed (q ∷ qs) c r
      extend (drained all e) went = drained (went, all) e
      extend (stopped sent p rest e some_sent refused e') went =
          stopped (q ∷ sent) p rest (ap (◌∷◌ q) e) (went, some_sent) refused e'

module _ {Time Delta W : Type 0} (E : Env Time Delta W) (L : PacketWriterLaws E.writer) where
  -- A packet that is not consumed leaves the manager in the write-blocked list.
  pub write_to_wire-queues :
      (q : QueuedPacket) (c : Channel W)
      → (write_to_wire E q c).1 ≡ false
      → member time_wait_manager (write_to_wire E q c).0.write_blocked_list ≡ true
  unfolding write_to_wire on_write_blocked
  write_to_wire-queues q c h = ground (
    arith,
    member-insert time_wait_manager time_wait_manager c.write_blocked_list,
    L.blocked_after_write c.world q.packet q.server_address.address q.client_address,
  )

  pub send_or_queue_packet-IsQueued :
      (q : QueuedPacket) (m : TimeWait Time Delta) (c : Channel W)
      → IsQueued m c
      → IsQueued (send_or_queue_packet E q m c).0 (send_or_queue_packet E q m c).1
  unfolding send_or_queue_packet
  send_or_queue_packet-IsQueued q m c h =
      ground (arith, write_to_wire-queues q c, write_to_wire-keeps E q c time_wait_manager)

  pub respond-IsQueued :
      (server client : IpEndPoint) (id sn : ℕ) (close : Option Packet) (m : TimeWait Time Delta)
      (c : Channel W)
      → IsQueued m c
      → IsQueued
          (respond E server client id sn close m c).0
          (respond E server client id sn close m c).1
  unfolding respond send_public_reset
  respond-IsQueued server client id sn none m c h = send_or_queue_packet-IsQueued _ m c h
  respond-IsQueued server client id sn (some p) m c h = send_or_queue_packet-IsQueued _ m c h

  -- A late packet never leaves an answer in the queue without the manager in the write-blocked list.
  pub process_packet-IsQueued :
      (server client : IpEndPoint) (id sn : ℕ) (m : TimeWait Time Delta) (c : Channel W)
      (r : TimeWait Time Delta × Channel W)
      → IsQueued m c
      → process_packet E server client id sn m c ≡ some r
      → IsQueued r.0 r.1
  process_packet-IsQueued server client id sn m c r h e =
      elim (Option-cases (lookup id m.connection_id_map)) [
        | inl missing ↦ absurd (cc (process_packet_absent E server client id sn m c missing))
        | inr (d, found) ↦ elim (Bool-cases (should_send_response (next_count d.num_packets))) [
          | inl due ↦
              of_eq_some (λ x. IsQueued x.0 x.1)
                (process_packet_due E server client id sn m c d found due) e
                (respond-IsQueued server client id sn d.close_packet (counted id d m) c h)
          | inr quiet ↦
              of_eq_some (λ x. IsQueued x.0 x.1)
                (process_packet_quiet E server client id sn m c d found quiet) e h
        ]
      ]

  -- After `OnCanWrite` the queue is empty, or the manager waits in the write-blocked list again.
  pub on_can_write-IsQueued :
      (m : TimeWait Time Delta) (c : Channel W)
      → IsQueued (on_can_write E m c).0 (on_can_write E m c).1
  unfolding on_can_write
  on_can_write-IsQueued m c = left (flush-Flushed E m.pending_packets_queue c)
    where
      left :
          {r : List QueuedPacket × Channel W}
          → Flushed E m.pending_packets_queue c r
          → (r.0 ≡ []) ⊎ (member time_wait_manager r.1.write_blocked_list ≡ true)
      left (drained all e) = inl (ap (λ x. x.0) e)
      left (stopped sent p rest e some_sent refused e') =
          inr (rw e' (write_to_wire-queues p (send_all E sent c) refused))
