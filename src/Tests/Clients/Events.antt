-- ===== src/Tests/Clients/Events.antt =====
-- The theorem on the events of a client.
use cmuquic.Prelude.{refl, [], ◌∷◌, ◌==◌}
use cmuquic.Prelude.Int.{pos, negsuc}
use cmuquic.Socket.{ReadResult, no_endpoint}
use cmuquic.Server.{EventBits}
use cmuquic.Client.Lifetime.{on_event}
use cmuquic.Client.Lifetime.Events.{HasHandled, on_event-HasHandled}
use cmuquic.Tests.Clients.{objects, online, alarms_with}

-- A packet, and a read that fails.
abbrev packet : ReadResult
packet = record {
  bytes_read = pos 1;
  errno = 0;
  buffer = 1 ∷ [];
  dropped_packets = 0;
  self_address = 10 ∷ 0 ∷ 0 ∷ 2 ∷ [];
  peer_address = no_endpoint;
}

abbrev failure : ReadResult
failure = record packet { bytes_read = negsuc 0; errno = 11; buffer = [] }

abbrev bits : EventBits
bits = record { epollin = 1; epollout = 4 }

on_event-HasHandled_example :
    HasHandled objects bits online.client 60 50 5
      (packet ∷ failure ∷ [])
      (alarms_with (λ q. 9 == q))
      (on_event objects bits online.client 5 (packet ∷ failure ∷ []) (alarms_with (λ q. 9 == q)))
unfolding online
on_event-HasHandled_example =
    on_event-HasHandled objects bits online.client 60 50 5 (packet ∷ failure ∷ [])
      (alarms_with (λ q. 9 == q)) refl refl
