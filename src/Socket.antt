-- ===== src/Socket.antt =====
-- net/tools/quic/quic_socket_utils.{h,cc}, over the calls of the netdp stack that it makes.
-- The conversions of `IPEndPoint` to and from a `sockaddr` stand inside the calls.
use cmuquic.Prelude.{ℕ, Bool, true, false, ◌||◌, ◌&&◌, not, List, [], ◌==◌, if◌then◌else◌}
use cmuquic.Prelude.Int.{ℤ, pos, negsuc, ltb_ℤ, leb_ℤ, pos_part}
use cmuquic.Net.{Packet, IpEndPoint, WriteResult, write_ok, write_blocked, write_error}

-- A result of a call: the return code, and `errno` after it.
pub record Returned : Type 0 where
  pub code : ℤ
  pub errno : ℕ

-- The family that `recvfrom` left in the address, with the endpoint that it holds.
pub data Family : Type 0 where
  af_inet af_inet6 other_family : Family

pub record Datagram : Type 0 where
  pub bytes : Packet
  pub family : Family
  pub sender : IpEndPoint

-- The options that are set; the numbers are those of the system headers.
pub data SocketOption : Type 0 where
  ip_pktinfo ipv6_recvpktinfo so_sndbuf so_rcvbuf so_rxq_ovfl : SocketOption

-- The netdp socket calls over the state `S` of the stack, and its error numbers.
pub record Sockets (S : Type 0) : Type 0 where
  pub sendto : S → ℤ → Packet → IpEndPoint → S × Returned
  pub recvfrom : S → ℤ → ℕ → S × Returned × Datagram
  pub setsockopt : S → ℤ → SocketOption → ℕ → S × ℤ
  pub eagain : ℕ
  pub ewouldblock : ℕ
  pub sys_eagain : ℕ

abbrev pub is_inet6 : Family → Bool
is_inet6 af_inet6 = true
is_inet6 _ = false

abbrev pub is_zero : ℤ → Bool
is_zero (pos n) = n == 0
is_zero (negsuc n) = false

-- The endpoint that `IPEndPoint()` makes.
abbrev pub no_endpoint : IpEndPoint
no_endpoint = record { address = []; port = 0 }

-- What `ReadPacket` returns and leaves behind its pointers.
pub record ReadResult : Type 0 where
  pub bytes_read : ℤ
  pub errno : ℕ
  pub buffer : Packet
  pub dropped_packets : ℕ
  pub self_address : List ℕ
  pub peer_address : IpEndPoint

module _ {S : Type 0} (K : Sockets S) where
  -- `SetGetAddressInfo`.
  unfoldable pub set_get_address_info : S → ℤ → Family → S × ℤ
  set_get_address_info s fd family =
      let (s', rc) = K.setsockopt s fd ip_pktinfo 1 in
      if is_zero rc && is_inet6 family then K.setsockopt s' fd ipv6_recvpktinfo 1 else (s', rc)

  -- `SetSendBufferSize`.
  unfoldable pub set_send_buffer_size : S → ℤ → ℕ → S × Bool
  set_send_buffer_size s fd size =
      let (s', rc) = K.setsockopt s fd so_sndbuf size in
      if not (is_zero rc) then (s', false) else (s', true)

  -- `SetReceiveBufferSize`.
  unfoldable pub set_receive_buffer_size : S → ℤ → ℕ → S × Bool
  set_receive_buffer_size s fd size =
      let (s', rc) = K.setsockopt s fd so_rcvbuf size in
      if not (is_zero rc) then (s', false) else (s', true)

  -- The end of `ReadPacket`: the peer's address is set by its family.
  unfoldable pub peer_of : Datagram → IpEndPoint
  peer_of d = elim d.family [ other_family ↦ no_endpoint | _ ↦ d.sender ]

  -- `ReadPacket`, with the values behind `dropped_packets` and `self_address` when it is called.
  unfoldable pub read_packet : S → ℤ → ℕ → ℕ → List ℕ → S × ReadResult
  unfolding peer_of
  read_packet s fd buf_len dropped self =
      let (s', r, d) = K.recvfrom s fd buf_len in
      if ltb_ℤ r.code (pos 0) && not (r.errno == 0)
      then (
        s',
        record {
          bytes_read = negsuc 0;
          errno = if r.errno == K.eagain then K.sys_eagain else r.errno;
          buffer = d.bytes;
          dropped_packets = dropped;
          self_address = self;
          peer_address = no_endpoint;
        },
      )
      else (
        s',
        record {
          bytes_read = r.code;
          errno = r.errno;
          buffer = d.bytes;
          dropped_packets = dropped;
          self_address = self;
          peer_address = peer_of d;
        },
      )

  -- `WritePacket`. The local address is not used.
  unfoldable pub write_packet : S → ℤ → Packet → List ℕ → IpEndPoint → S × WriteResult
  write_packet s fd buffer self peer =
      let (s', r) = K.sendto s fd buffer peer in
      if leb_ℤ (pos 0) r.code
      then (s', record { status = write_ok; value = pos_part r.code })
      else (
        s',
        record {
          status =
              if r.errno == K.eagain || r.errno == K.ewouldblock
              then write_blocked
              else write_error;
          value = r.errno;
        },
      )
