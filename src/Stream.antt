-- ===== src/Stream.antt =====
-- net/tools/quic/quic_server_stream.{h,cc} and quic_client_stream.cc: the streams of the two programs, and
-- how a server session makes one.
pub mod Writes
use cmuquic.Prelude.{
  ℕ, zero, suc, ◌+◌, ◌-◌, ◌%◌, ◌^◌, Bool, true, false, Option, none, some, List, [], ◌∷◌,
}
use cmuquic.Prelude.Int.{ℤ, pos, negsuc}
use cmuquic.Net.{TimeOps}

-- `QuicServerStream`: its members; the packet number is an int, the alarm the address of an object.
pub record ServerStream : Type 0 where
  pub id : ℕ
  pub packet_num : ℤ
  pub payload : List ℕ
  pub bytes_received : ℕ
  pub alarm : Option ℕ

-- What streams call of the library: the base class, and alarms with their clock.
pub record StreamCalls (Time Delta W : Type 0) : Type 0 where
  pub time : TimeOps Time Delta
  pub write_or_buffer_data : W → ℕ → List ℕ → Bool → W
  pub create_alarm : W → ℕ → W × ℕ
  pub set_alarm : W → ℕ → Time → W
  pub cancel_alarm : W → ℕ → W
  pub approximate_now : W → Time
  pub one_second : Delta

-- A string of n times the byte b.
abbrev pub repeat : ℕ → ℕ → List ℕ
repeat zero b = []
repeat (suc n) b = b ∷ repeat n b

-- The constructor: 1300 bytes 'x'. The packet number and the alarm are set before they are read.
unfoldable pub new_server_stream : ℕ → ServerStream
new_server_stream id = record {
  id = id;
  packet_num = pos 0;
  payload = repeat 1300 120;
  bytes_received = 0;
  alarm = none;
}

-- "server_end".
abbrev pub server_end : List ℕ
server_end = 115 ∷ 101 ∷ 114 ∷ 118 ∷ 101 ∷ 114 ∷ 95 ∷ 101 ∷ 110 ∷ 100 ∷ []

-- `ProcessRawData`, with the length of the data: what it returns, and the stream.
unfoldable pub process_raw_data : ℕ → ServerStream → ℕ × ServerStream
process_raw_data data_len s =
    (data_len, record s { bytes_received = (s.bytes_received + data_len) % 2 ^ 64 })

-- `SetPacketNum`.
unfoldable pub set_packet_num : ℤ → ServerStream → ServerStream
set_packet_num n s = record s { packet_num = n }

-- An int that is compared with a uint64.
unfoldable pub to_uint64 : ℤ → ℕ
to_uint64 (pos n) = n
to_uint64 (negsuc n) = 2 ^ 64 - (n + 1)

module _ {Time Delta W : Type 0} (K : StreamCalls Time Delta W) where
  -- `WriteStringPiece`, of both streams.
  unfoldable pub write_string_piece : ℕ → List ℕ → Bool → W → W
  write_string_piece id bytes fin w = K.write_or_buffer_data w id bytes fin

  -- The loop of `OnFinRead`.
  unfoldable pub write_payloads : ℕ → ServerStream → W → W
  write_payloads zero s w = w
  write_payloads (suc n) s w = write_payloads n s (write_string_piece s.id s.payload false w)

  -- `OnFinRead`.
  unfoldable pub on_fin_read : ServerStream → W → W
  on_fin_read s w =
      write_string_piece s.id server_end true (write_payloads (to_uint64 s.packet_num) s w)

  -- One second after now, when the alarm of a stream is to go.
  abbrev pub in_one_second : W → Time
  in_one_second w = K.time.add (K.approximate_now w) K.one_second

  -- `SetupPerformanceAlarm`.
  unfoldable pub setup_performance_alarm : ServerStream → W → ServerStream × W
  setup_performance_alarm s w =
      let (w', a) = K.create_alarm w s.id in
      (record s { alarm = some a }, K.set_alarm w' a (in_one_second w'))

  -- `OnAlarm`: the next time. What it prints is not in the model.
  unfoldable pub stream_on_alarm : ServerStream → W → Time
  stream_on_alarm s w = in_one_second w

  -- The destructor.
  unfoldable pub destroy : ServerStream → W → W
  destroy s w = elim s.alarm [ none ↦ w | some a ↦ K.cancel_alarm w a ]

  -- `CreateIncomingDynamicStream` of the server session, with the packet number of the session.
  unfoldable pub create_incoming_dynamic_stream : ℤ → ℕ → W → ServerStream × W
  create_incoming_dynamic_stream packet_num id w =
      setup_performance_alarm (set_packet_num packet_num (new_server_stream id)) w
