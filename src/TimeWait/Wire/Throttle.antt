-- ===== src/TimeWait/Wire/Throttle.antt =====
-- `ProcessPacket` of quic_time_wait_list_manager.cc: which late packets are answered.
use cmuquic.Prelude.{ℕ, ◌+◌, ◌^◌, ◌<◌, ◌≡◌, Bool-cases, inl, inr, some, arith}
use cmuquic.Prelude.Assoc.{lookup}
use cmuquic.Net.{IpEndPoint}
use cmuquic.Blocked.{Channel}
use cmuquic.TimeWait.Data.{Env, ConnectionIdData, TimeWait, should_send_response, next_count}
use cmuquic.TimeWait.Data.Backoff.{IsPowerOfTwo, should_send_response-IsPowerOfTwo}
use cmuquic.TimeWait.Wire.{respond, counted, process_packet}
use cmuquic.TimeWait.Wire.Pending.{process_packet_due, process_packet_quiet}

next_count_lem : (n : ℕ) → n + 1 < 2 ^ 32 → next_count n ≡ n + 1
unfolding next_count
next_count_lem n h = omega arith

-- A packet for an id in the list raises its count, below the overflow of the counter, and is
-- answered exactly if the new count is a power of two: otherwise nothing else changes.
pub process_packet-IsPowerOfTwo :
    {Time Delta W : Type 0} (E : Env Time Delta W) (server client : IpEndPoint) (id sn : ℕ)
    (m : TimeWait Time Delta) (c : Channel W) (d : ConnectionIdData Time)
    → lookup id m.connection_id_map ≡ some d
    → d.num_packets + 1 < 2 ^ 32
    → (IsPowerOfTwo (d.num_packets + 1)
        → process_packet E server client id sn m c
          ≡ some (respond E server client id sn d.close_packet (counted id d m) c))
      × (¬ IsPowerOfTwo (d.num_packets + 1)
          → process_packet E server client id sn m c ≡ some (counted id d m, c))
process_packet-IsPowerOfTwo E server client id sn m c d found small =
    let n : next_count d.num_packets ≡ d.num_packets + 1 = next_count_lem d.num_packets small in
    let due = should_send_response-IsPowerOfTwo (d.num_packets + 1) (omega arith) small in
    elim (Bool-cases (should_send_response (d.num_packets + 1))) [
      | inl t ↦ (
        λ p. process_packet_due E server client id sn m c d found (rw n t),
        λ p. absurd (p (due.0 t)),
      )
      | inr f ↦ (
        λ p. absurd (cc (due.1 p)),
        λ p. process_packet_quiet E server client id sn m c d found (rw n f),
      )
    ]
