-- ===== src/Tests/TimeWait.antt =====
-- The theorems on the time-wait list and the packet writer, on the small world.
use cmuquic.Prelude.{ℕ, ◌≡◌, ◌↔◌, ◌⊎◌, refl, true, false, none, some, [], ◌∷◌, inr, arith}
use cmuquic.Prelude.Int.{pos, ◌≤ℤ◌}
use cmuquic.Prelude.Assoc.{lookup, contains, IsDistinct}
use cmuquic.Net.{write_ok, write_blocked, PacketWriterLaws}
use cmuquic.Blocked.{Channel, member}
use cmuquic.TimeWait.Data.{TimeWait, should_send_response, next_count}
use cmuquic.TimeWait.Data.Backoff.{IsPowerOfTwo, should_send_response-IsPowerOfTwo}
use cmuquic.TimeWait.Wire
use cmuquic.TimeWait.Wire.{respond, counted, process_packet, flush}
use cmuquic.TimeWait.Wire.Pending.{
  IsQueued, Flushed, flush-Flushed, process_packet-IsQueued, on_can_write-IsQueued,
}
use cmuquic.TimeWait.Wire.Throttle.{process_packet-IsPowerOfTwo}
use cmuquic.TimeWait.Expiry.{add_connection_id_to_time_wait, clean_up_old_connection_ids, trim_loop}
use cmuquic.TimeWait.Expiry.Trim.{
  added_data, added_map, add_connection_id_to_time_wait-eq, add_connection_id_diverges,
}
use cmuquic.TimeWait.Expiry.Members.{IsBounded, add_connection_id-IsBounded}
use cmuquic.TimeWait.Expiry.CleanUp.{live, deadline, clean_up_old_connection_ids-live}
use cmuquic.Writer.{write_packet, is_write_blocked, default_packet_writer}
use cmuquic.Writer.Laws.{write_packet-status, default_packet_writer-PacketWriterLaws}
use cmuquic.Tests.World.{ticks, ticks-TimeLaws, env, closed_env, client, server, sockets, World}
use cmuquic.Tests.Servers.{blocked_world, late, time_wait, channel, empty_answer, answer}

-- The socket takes packets again.
abbrev free_channel : Channel World
free_channel = record channel { world = record blocked_world { is_blocked = false } }

distinct : IsDistinct time_wait.connection_id_map
unfolding contains
distinct = (refl, tt)

should_send_response-IsPowerOfTwo_example : (should_send_response 6 ≡ true) ↔ IsPowerOfTwo 6
should_send_response-IsPowerOfTwo_example =
    should_send_response-IsPowerOfTwo 6 (omega arith) (omega arith)

process_packet-IsPowerOfTwo_example :
    (IsPowerOfTwo 2
      → process_packet env server client 7 3 time_wait channel
        ≡ some (respond env server client 7 3 none (counted 7 late time_wait) channel))
    × (¬ IsPowerOfTwo 2
        → process_packet env server client 7 3 time_wait channel
          ≡ some (counted 7 late time_wait, channel))
unfolding lookup
process_packet-IsPowerOfTwo_example =
    process_packet-IsPowerOfTwo env server client 7 3 time_wait channel late refl (omega arith)

process_packet-IsQueued_example :
    IsQueued
      (respond env server client 7 3 none (counted 7 late time_wait) channel).0
      (respond env server client 7 3 none (counted 7 late time_wait) channel).1
unfolding member process_packet lookup should_send_response next_count
process_packet-IsQueued_example =
    process_packet-IsQueued env (default_packet_writer-PacketWriterLaws sockets) server client 7 3
      time_wait channel (respond env server client 7 3 none (counted 7 late time_wait) channel)
      (inr refl) refl

on_can_write-IsQueued_example :
    IsQueued
      (Wire.on_can_write env time_wait free_channel).0
      (Wire.on_can_write env time_wait free_channel).1
on_can_write-IsQueued_example =
    on_can_write-IsQueued env (default_packet_writer-PacketWriterLaws sockets) time_wait
      free_channel

flush-Flushed_example :
    Flushed env
      (answer ∷ empty_answer ∷ [])
      free_channel
      (flush env (answer ∷ empty_answer ∷ []) free_channel)
flush-Flushed_example = flush-Flushed env (answer ∷ empty_answer ∷ []) free_channel

add_connection_id_to_time_wait-eq_example :
    add_connection_id_to_time_wait env blocked_world 8 25 none time_wait
    ≡ some
        (record time_wait { connection_id_map = added_map env 1 blocked_world 8 25 none time_wait })
add_connection_id_to_time_wait-eq_example =
    add_connection_id_to_time_wait-eq env ticks-TimeLaws 1 blocked_world 8 25 none time_wait refl

add_connection_id-IsBounded_example :
    (m' : TimeWait ℕ (ℕ × ℕ)) × (add_connection_id_to_time_wait env blocked_world 8 25 none
        time_wait
      ≡ some m')
    × IsBounded 1 m'
    × (lookup 8 m'.connection_id_map ≡ some (added_data env blocked_world 8 25 none time_wait))
    × (m'.pending_packets_queue ≡ time_wait.pending_packets_queue)
add_connection_id-IsBounded_example =
    add_connection_id-IsBounded env 1 ticks-TimeLaws blocked_world 8 25 none time_wait refl distinct

add_connection_id_diverges_example :
    ((fuel : ℕ) (ids : _) → trim_loop closed_env fuel ids ≡ none)
    × (add_connection_id_to_time_wait closed_env blocked_world 8 25 none time_wait ≡ none)
add_connection_id_diverges_example =
    add_connection_id_diverges closed_env blocked_world 8 25 none time_wait refl

clean_up_old_connection_ids-live_example :
    let ids = live ticks 1000 (200, 0) time_wait.connection_id_map in
    clean_up_old_connection_ids env blocked_world time_wait
    ≡ some (record time_wait {
      connection_id_map = ids;
      connection_id_clean_up_alarm = some (deadline ticks 1000 (200, 0) ids);
    })
clean_up_old_connection_ids-live_example =
    clean_up_old_connection_ids-live env ticks-TimeLaws blocked_world time_wait (tt, tt)

default_packet_writer-PacketWriterLaws_example : PacketWriterLaws (default_packet_writer sockets)
default_packet_writer-PacketWriterLaws_example = default_packet_writer-PacketWriterLaws sockets

write_packet-status_example :
    let r = (sockets.sendto 1000 (pos 3) [] client).1 in
    let (w', result) = write_packet sockets blocked_world [] [] client in
    ((result.status ≡ write_ok) ↔ (pos 0 ≤ℤ r.code))
    × ((result.status ≡ write_blocked)
        ↔ ((¬ (pos 0 ≤ℤ r.code)) × ((r.errno ≡ 11) ⊎ (r.errno ≡ 11))))
    × (pos 0 ≤ℤ r.code → pos result.value ≡ r.code)
    × (¬ (pos 0 ≤ℤ r.code) → result.value ≡ r.errno)
    × ((is_write_blocked w' ≡ true)
        ↔ ((is_write_blocked blocked_world ≡ true) ⊎ (result.status ≡ write_blocked)))
write_packet-status_example = write_packet-status sockets blocked_world [] [] client
