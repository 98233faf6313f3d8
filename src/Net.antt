-- ===== src/Net.antt =====
-- What the files of net/tools/quic share, and what they use of the QUIC library: endpoints and
-- packets as data, and the library's classes as interfaces. A packet is its bytes.
-- `QuicPacketWriter` is an interface of the library that quic_default_packet_writer.cc implements;
-- `QuicTime` and `QuicTime::Delta` are the library's types, with the operators that are called.
use cmuquic.Prelude.{ℕ, ◌≡◌, Bool, true, false, List}

abbrev pub Packet : Type 0
Packet = List ℕ

-- `IPEndPoint`: the bytes of an address, and a port.
pub record IpEndPoint : Type 0 where
  pub address : List ℕ
  pub port : ℕ

pub data WriteStatus : Type 0 where
  write_ok write_blocked write_error : WriteStatus

-- The number is the count of bytes written, or the error code.
pub record WriteResult : Type 0 where
  pub status : WriteStatus
  pub value : ℕ

-- `QuicPacketWriter`, over the state `W` that it reads and writes.
pub record PacketWriter (W : Type 0) : Type 0 where
  pub write_packet : W → Packet → List ℕ → IpEndPoint → W × WriteResult
  pub is_write_blocked : W → Bool
  pub is_write_blocked_data_buffered : W → Bool
  pub set_writable : W → W

-- What the clients of a writer rely on: a write that reports "blocked" leaves the writer blocked,
-- and `SetWritable` unblocks it.
pub record PacketWriterLaws {W : Type 0} (P : PacketWriter W) : Type 0 where
  pub blocked_after_write :
      (w : W) (p : Packet) (self : List ℕ) (peer : IpEndPoint)
      → (P.write_packet w p self peer).1.status ≡ write_blocked
      → P.is_write_blocked (P.write_packet w p self peer).0 ≡ true
  pub writable_after_set : (w : W) → P.is_write_blocked (P.set_writable w) ≡ false

-- `QuicTime` and `QuicTime::Delta`.
pub record TimeOps (Time Delta : Type 0) : Type 0 where
  pub time_gt : Time → Time → Bool
  pub add : Time → Delta → Time
  pub subtract : Time → Time → Delta
  pub subtract_delta : Time → Delta → Time
  pub delta_lt : Delta → Delta → Bool
  pub delta_zero : Delta
  pub infinite : Time

-- The documented order of points in time: "not after" is transitive, with `Infinite()` on top; the
-- difference of two points leads from the one to the other, and an interval can be moved across a comparison.
pub record TimeLaws {Time Delta : Type 0} (T : TimeOps Time Delta) : Type 0 where
  pub not_gt_trans :
      (a b c : Time) → T.time_gt a b ≡ false → T.time_gt b c ≡ false → T.time_gt a c ≡ false
  pub gt_infinite : (a : Time) → T.time_gt a T.infinite ≡ false
  pub add-subtract : (a b : Time) → T.add b (T.subtract a b) ≡ a
  pub expiry :
      (a b : Time) (d : Delta) → T.time_gt a (T.subtract_delta b d) ≡ T.delta_lt (T.subtract b a) d

-- The two windows of `QuicConfig`.
pub record Windows : Type 0 where
  pub stream : ℕ
  pub session : ℕ
