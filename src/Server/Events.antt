-- ===== src/Server/Events.antt =====
-- quic_server.cc: every event of the socket is handled to the end.
use cmuquic.Prelude.{
  ℕ, ◌≡◌, refl, bit_and, bit_or, Bool, true, false, not, none, some, List, [], ◌∷◌, ◌==◌, Runs,
  Runs->>=, Runs-if, inl, inr, ◌⊎◌, arith,
}
use cmuquic.Prelude.Int.{ltb_ℤ, pos}
use cmuquic.Net.{Packet}
use cmuquic.Socket.{ReadResult}
use cmuquic.Blocked.{has_pending_writes}
use cmuquic.Dispatcher.Data.{Dispatcher, Host, world}
use cmuquic.Dispatcher.Invariant.{IsValid, Laws}
use cmuquic.Dispatcher.Closing.Blocking.{BlockingLaws, NeverUnblocks}
use cmuquic.Dispatcher.Routing.Packets.{IsFramed, process_packet-IsValid}
use cmuquic.Dispatcher.Writing.Progress.{Rests, on_can_write-Runs}
use cmuquic.Server.{EventBits, read_and_dispatch_single_packet, read_all, write_event, on_event}

module _ {Time Delta W : Type 0} (k : ℕ) (H : Host Time Delta W) where
  -- What a writable socket leads to: the server asks for another turn only if the socket is blocked.
  abbrev pub Written : EventBits → ℕ × Dispatcher Time Delta W → Type 0
  Written bits p =
      IsValid k p.1
      × (((p.0 ≡ 0) × (p.1.channel.write_blocked_list ≡ []))
          ⊎ ((p.0 ≡ bit_or 0 bits.epollout) × (H.env.writer.is_write_blocked (world p.1) ≡ true)))

  -- How an event ends: without a request for another turn, or as a writable socket does.
  abbrev pub Handled : EventBits → ℕ → ℕ × Dispatcher Time Delta W → Type 0
  Handled bits in_events p =
      ((bit_and in_events bits.epollout ≡ 0) × IsValid k p.1 × (p.0 ≡ 0)) ⊎ Written bits p

module _ {Time Delta W : Type 0} (k : ℕ) (H : Host Time Delta W) (L : Laws k H)
    (framed : (version : ℕ) (packet : Packet)
      → IsFramed none (H.library.framer_run version packet)) where
  read_all-Runs :
      (port : ℕ) (reads : List ReadResult) (d : Dispatcher Time Delta W)
      → IsValid k d
      → Runs (IsValid k) (read_all H port reads d)
  unfolding read_all read_and_dispatch_single_packet
  read_all-Runs port [] d v = (d, refl, v)
  read_all-Runs port (r ∷ rs) d v =
      Runs->>= (λ p. IsValid k p.1) (IsValid k) _ _ one
        (λ p v'.
          Runs-if (IsValid k) p.0 _ _ (λ more. read_all-Runs port rs p.1 v')
            (λ last. (p.1, refl, v')))
    where
      one :
          Runs
            (λ (p : Bool × Dispatcher Time Delta W). IsValid k p.1)
            (read_and_dispatch_single_packet H port r d)
      one =
          Runs-if (λ p. IsValid k p.1) (ltb_ℤ r.bytes_read (pos 0)) _ _
            (λ failed. ((false, d), refl, v))
            (λ read.
              Runs->>= (IsValid k) (λ p. IsValid k p.1) _ _
                (process_packet-IsValid k H L _ r.peer_address r.buffer d
                  (framed d.framer_version r.buffer) v)
                (λ d' v'. ((true, d'), refl, v')))

module _ {Time Delta W : Type 0} (k : ℕ) (H : Host Time Delta W) (L : Laws k H) (B : BlockingLaws H)
    (framed : (version : ℕ) (packet : Packet) → IsFramed none (H.library.framer_run version packet))
    (never : (w : W) (a : ℕ) → NeverUnblocks H w (H.library.connection_on_can_write w a)) where
  write_event-Runs :
      (bits : EventBits) (d : Dispatcher Time Delta W)
      → IsValid k d
      → Runs (Written k H bits) (write_event H bits d)
  unfolding write_event has_pending_writes
  write_event-Runs bits d v =
      Runs->>= (Rests k H) (Written k H bits) _ _ (on_can_write-Runs k H L B never d v)
        (λ d' q. (_, refl, (q.0, ground (arith, q.1))))

  -- If the framer delivers the header of a packet once at most, on demand and for the id of its
  -- public header, and only `SetWritable` unblocks the packet writer, then an
  -- event of the socket is handled to the end from a valid dispatcher, whatever packets are read,
  -- and leaves it valid. If the socket is writable, then either no writer waits any more, or the
  -- socket is blocked again; and exactly in the second case another turn is asked for.
  pub on_event-Runs :
      (bits : EventBits) (port in_events : ℕ) (reads : List ReadResult)
      (d : Dispatcher Time Delta W)
      → IsValid k d
      → Runs (Handled k H bits in_events) (on_event H bits port in_events reads d)
  unfolding on_event
  on_event-Runs bits port in_events reads d v =
      Runs->>= (IsValid k) (Handled k H bits in_events) _ _
        (Runs-if (IsValid k) (not (bit_and in_events bits.epollin == 0)) _ (some d)
          (λ readable. read_all-Runs k H L framed port reads d v) (λ quiet. (d, refl, v)))
        (λ d' v'.
          Runs-if (Handled k H bits in_events) (not (bit_and in_events bits.epollout == 0)) _
            (some (0, d'))
            (λ writable. let (p, e, w) = write_event-Runs bits d' v' in (p, e, inr w))
            (λ quiet. ((0, d'), refl, inl (ground arith, v', refl))))
