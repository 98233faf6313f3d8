-- ===== src/Tests/Streams.antt =====
-- The theorems on streams, on a library that logs what is written.
use cmuquic.Prelude.{ℕ, ◌+◌, ◌-◌, ◌%◌, ◌^◌, ◌≡◌, refl, true, [], ◌∷◌, ◌++◌, arith}
use cmuquic.Prelude.Int.{pos, negsuc}
use cmuquic.Stream.{StreamCalls, server_end, new_server_stream, to_uint64}
use cmuquic.Stream.Writes.{
  Log, LogLaws, finished, payloads, sum, process_all, bytes_received-process_all, log-on_fin_read,
}
use cmuquic.Tests.World.{ticks}

abbrev library : StreamCalls ℕ (ℕ × ℕ) Log
library = record {
  time = ticks;
  write_or_buffer_data = λ w id bytes fin. w ++ (id, bytes, fin) ∷ [];
  create_alarm = λ w id. (w, id + 100);
  set_alarm = λ w a t. w;
  cancel_alarm = λ w a. w;
  approximate_now = λ w. 5;
  one_second = (0, 1000);
}

library-LogLaws : LogLaws library (λ w. w)
library-LogLaws = record {
  written = λ w id bytes fin. refl;
  created = λ w id. refl;
  set = λ w a t. refl;
}

log-on_fin_read_example :
    ((n : ℕ)
      → finished library (λ w. w) library-LogLaws (pos n) 5 []
        ≡ [] ++ payloads n 5 ++ (5, server_end, true) ∷ [])
    × ((m : ℕ)
        → finished library (λ w. w) library-LogLaws (negsuc m) 5 []
          ≡ [] ++ payloads (2 ^ 64 - (m + 1)) 5 ++ (5, server_end, true) ∷ [])
log-on_fin_read_example = log-on_fin_read library (λ w. w) library-LogLaws 5 []

-- The packet number -5 asks for almost 2^64 packets.
minus_five : to_uint64 (negsuc 4) ≡ 18446744073709551611
unfolding to_uint64
minus_five = refl

bytes_received-process_all_example :
    (process_all (1000 ∷ 300 ∷ []) (new_server_stream 5)).bytes_received
    ≡ ((new_server_stream 5).bytes_received + sum (1000 ∷ 300 ∷ [])) % 2 ^ 64
unfolding new_server_stream
bytes_received-process_all_example =
    bytes_received-process_all (1000 ∷ 300 ∷ []) (new_server_stream 5) (omega arith)
