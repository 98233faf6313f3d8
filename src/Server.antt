-- ===== src/Server.antt =====
-- net/tools/quic/quic_server.cc: the events of the server's socket.
pub mod Events
pub mod Listening
pub mod Lifetime
use cmuquic.Prelude.{
  ℕ, bit_and, bit_or, Bool, true, false, not, Option, none, some, List, [], ◌∷◌, ◌==◌,
  if◌then◌else◌, ◌>>=◌,
}
use cmuquic.Prelude.Int.{ltb_ℤ, pos}
use cmuquic.Net.{IpEndPoint}
use cmuquic.Socket.{ReadResult}
use cmuquic.Blocked.{has_pending_writes}
use cmuquic.Dispatcher.Data.{Dispatcher, Host}
use cmuquic.Dispatcher.Routing.{process_packet}
use cmuquic.Dispatcher.Writing.{on_can_write}

-- The bits of an event, which are the system's.
pub record EventBits : Type 0 where
  pub epollin : ℕ
  pub epollout : ℕ

module _ {Time Delta W : Type 0} (H : Host Time Delta W) where
  -- `ReadAndDispatchSinglePacket`, with what `ReadPacket` has returned. The endpoint of the server
  -- is made of the address that was read and of the port.
  unfoldable pub read_and_dispatch_single_packet :
      ℕ → ReadResult → Dispatcher Time Delta W → Option (Bool × Dispatcher Time Delta W)
  read_and_dispatch_single_packet port r d =
      if ltb_ℤ r.bytes_read (pos 0)
      then some (false, d)
      else process_packet H (record { address = r.self_address; port = port }) r.peer_address
          r.buffer d
        >>= λ d'. some (true, d')

  -- The loop of `OnEvent` over what the reads return, one after the other; it ends with the
  -- first read that fails.
  unfoldable pub read_all :
      ℕ → List ReadResult → Dispatcher Time Delta W → Option (Dispatcher Time Delta W)
  read_all port [] d = some d
  read_all port (r ∷ rs) d = read_and_dispatch_single_packet port r d >>= λ p.
      if p.0 then read_all port rs p.1 else some p.1

  -- The part of `OnEvent` for a writable socket: `out_ready_mask`, and the dispatcher.
  unfoldable pub write_event :
      EventBits → Dispatcher Time Delta W → Option (ℕ × Dispatcher Time Delta W)
  write_event bits d = on_can_write H d >>= λ d'.
      some (if has_pending_writes d'.channel then bit_or 0 bits.epollout else 0, d')

  -- `OnEvent`, with the mask of the event and the reads: `out_ready_mask`, and the dispatcher.
  unfoldable pub on_event :
      EventBits
      → ℕ
      → ℕ
      → List ReadResult
      → Dispatcher Time Delta W
      → Option (ℕ × Dispatcher Time Delta W)
  on_event bits port in_events reads d =
      (if not (bit_and in_events bits.epollin == 0) then read_all port reads d else some d)
      >>= λ d'.
          if not (bit_and in_events bits.epollout == 0) then write_event bits d' else some (0, d')
