-- ===== src/Stream/Writes.antt =====
-- quic_server_stream.cc: what the server sends on a stream.
use cmuquic.Prelude.{
  ℕ, zero, suc, ◌+◌, ◌-◌, ◌%◌, ◌^◌, ◌<◌, ◌≡◌, refl, ◌∙◌, ap, sym, Bool, true, false, List, [], ◌∷◌,
  ◌++◌, arith,
}
use mathlib.Core.List.{append_assoc, append-nil}
use cmuquic.Prelude.Int.{ℤ, pos, negsuc}
use cmuquic.Stream.{
  ServerStream, StreamCalls, repeat, new_server_stream, server_end, set_packet_num,
  process_raw_data, to_uint64, write_string_piece, write_payloads, on_fin_read,
  setup_performance_alarm, create_incoming_dynamic_stream,
}

-- A log of what was written: the stream, the bytes, and whether they end the stream.
abbrev pub Log : Type 0
Log = List (ℕ × List ℕ × Bool)

-- The library appends a write to what was written, and alarms write nothing.
pub record LogLaws {Time Delta W : Type 0} (K : StreamCalls Time Delta W) (log : W → Log)
    : Type 0 where
  pub written :
      (w : W) (id : ℕ) (bytes : List ℕ) (fin : Bool)
      → log (K.write_or_buffer_data w id bytes fin) ≡ log w ++ (id, bytes, fin) ∷ []
  pub created : (w : W) (id : ℕ) → log (K.create_alarm w id).0 ≡ log w
  pub set : (w : W) (a : ℕ) (t : Time) → log (K.set_alarm w a t) ≡ log w

-- n payloads, which do not end the stream.
abbrev pub payloads : ℕ → ℕ → Log
payloads zero id = []
payloads (suc n) id = (id, repeat 1300 120, false) ∷ payloads n id

-- The lengths of the data that `ProcessRawData` is given, one after the other.
abbrev pub process_all : List ℕ → ServerStream → ServerStream
process_all [] s = s
process_all (n ∷ ns) s = process_all ns (process_raw_data n s).1

abbrev pub sum : List ℕ → ℕ
sum [] = 0
sum (n ∷ ns) = n + sum ns

-- The bytes that a stream has received are the sum of the lengths that it was given, modulo 2^64.
pub bytes_received-process_all :
    (ns : List ℕ) (s : ServerStream)
    → s.bytes_received < 2 ^ 64
    → (process_all ns s).bytes_received ≡ (s.bytes_received + sum ns) % 2 ^ 64
unfolding process_raw_data
bytes_received-process_all [] s h = omega (arith, h)
bytes_received-process_all (n ∷ ns) s h =
    omega (arith, bytes_received-process_all ns (process_raw_data n s).1 (omega arith))

module _ {Time Delta W : Type 0} (K : StreamCalls Time Delta W) (log : W → Log)
    (L : LogLaws K log) where
  -- A stream of a session with a packet number is made, and read to the end.
  abbrev pub finished : ℤ → ℕ → W → W
  finished packet_num id w =
      let (s, w') = create_incoming_dynamic_stream K packet_num id w in on_fin_read K s w'

  log-write_payloads :
      (n : ℕ) (s : ServerStream) (w : W)
      → s.payload ≡ repeat 1300 120
      → log (write_payloads K n s w) ≡ log w ++ payloads n s.id
  unfolding write_payloads write_string_piece
  log-write_payloads zero s w e = sym (append-nil (log w))
  log-write_payloads (suc n) s w e =
      log-write_payloads n s (K.write_or_buffer_data w s.id s.payload false) e
      ∙ ap (λ x. x ++ payloads n s.id)
          (L.written w s.id s.payload false ∙ ap (λ p. log w ++ (s.id, p, false) ∷ []) e)
      ∙ append_assoc (log w) ((s.id, repeat 1300 120, false) ∷ []) (payloads n s.id)

  -- A read to the end of a stream that a session with some packet number has created.
  log-finished :
      (packet_num : ℤ) (id : ℕ) (w : W)
      → log (finished packet_num id w)
        ≡ log w ++ payloads (to_uint64 packet_num) id ++ (id, server_end, true) ∷ []
  unfolding on_fin_read write_string_piece create_incoming_dynamic_stream setup_performance_alarm
      set_packet_num new_server_stream
  log-finished packet_num id w =
      let (s, w') = create_incoming_dynamic_stream K packet_num id w in
      let a = K.create_alarm w id in
      let quiet : log w' ≡ log w = L.set a.0 a.1 _ ∙ L.created w id in
      L.written (write_payloads K (to_uint64 packet_num) s w') id server_end true
      ∙ ap (λ x. x ++ (id, server_end, true) ∷ [])
          (log-write_payloads (to_uint64 packet_num) s w' refl
            ∙ ap (λ x. x ++ payloads (to_uint64 packet_num) id) quiet)

  -- On a stream that a session with packet number n has created, a read to the end is answered by n payloads
  -- of 1300 bytes and then "server_end", which alone ends the stream. With the negative packet
  -- number -(m + 1) there are 2^64 - (m + 1) payloads.
  pub log-on_fin_read :
      (id : ℕ) (w : W)
      → ((n : ℕ)
          → log (finished (pos n) id w) ≡ log w ++ payloads n id ++ (id, server_end, true) ∷ [])
        × ((m : ℕ)
            → log (finished (negsuc m) id w)
              ≡ log w ++ payloads (2 ^ 64 - (m + 1)) id ++ (id, server_end, true) ∷ [])
  unfolding to_uint64
  log-on_fin_read id w = (λ n. log-finished (pos n) id w, λ m. log-finished (negsuc m) id w)
