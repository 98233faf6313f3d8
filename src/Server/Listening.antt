-- ===== src/Server/Listening.antt =====
-- quic_server.cc: how the server begins to listen. `none` is a call of `epoll_ctl` that fails.
pub mod Outcome
use cmuquic.Prelude.{
  ℕ, bit_or, Bool, true, false, not, Option, none, some, ◌==◌, if◌then◌else◌, ◌>>=◌,
}
use cmuquic.Prelude.Int.{ℤ, pos, ltb_ℤ, pos_part}
use cmuquic.Net.{IpEndPoint}
use cmuquic.Socket.{
  Sockets, Family, so_rxq_ovfl, set_get_address_info, set_receive_buffer_size, set_send_buffer_size,
}
use cmuquic.Epoll.Data.{EpollServer, Poll}
use cmuquic.Epoll.Registry.{with_world, register_fd}

-- The members of `QuicServer` that `Listen` sets; `listening` is whether the dispatcher is made.
pub record QuicServer (W : Type 0) : Type 0 where
  pub epoll : EpollServer W
  pub port : ℕ
  pub fd : ℤ
  pub overflow_supported : Bool
  pub listening : Bool

-- The calls that make a socket. `get_port` is `getsockname` with the conversion of its address.
pub record SocketCalls (W : Type 0) : Type 0 where
  pub sockets : Sockets W
  pub socket : W → Family → W × ℤ
  pub bind : W → ℤ → IpEndPoint → W × ℤ
  pub get_port : W → ℤ → W × Option ℕ

-- The numbers that the source and the system fix: `kEpollFlags`, the size of the buffers, and the address
-- of the server as a callback.
pub record Settings : Type 0 where
  pub epoll_flags : ℕ
  pub buffer_size : ℕ
  pub callback : ℕ

module _ {W : Type 0} where
  abbrev pub in_world : W → QuicServer W → QuicServer W
  in_world w s = record s { epoll = with_world w s.epoll }

module _ {W : Type 0} (K : SocketCalls W) (P : Poll W) (N : Settings) where
  -- The last steps of `Listen`: the registration, and the dispatcher.
  abbrev pub start : QuicServer W → Option (Bool × QuicServer W)
  start s = register_fd P (pos_part s.fd) N.callback N.epoll_flags s.epoll >>= λ e.
      some (true, record s { epoll = e; listening = true })

  -- The port, if the system chooses it.
  abbrev pub find_port : QuicServer W → Option (Bool × QuicServer W)
  find_port s =
      if s.port == 0
      then (let (w, found) = K.get_port s.epoll.world s.fd in
          elim found [
            | none ↦ some (false, in_world w s)
            | some p ↦ start (record (in_world w s) { port = p })
          ])
      else start s

  abbrev pub bind_socket : IpEndPoint → QuicServer W → Option (Bool × QuicServer W)
  bind_socket address s =
      let (w, rc) = K.bind s.epoll.world s.fd address in
      if ltb_ℤ rc (pos 0) then some (false, in_world w s) else find_port (in_world w s)

  abbrev pub size_buffers : IpEndPoint → QuicServer W → Option (Bool × QuicServer W)
  size_buffers address s =
      let (w, received) = set_receive_buffer_size K.sockets s.epoll.world s.fd N.buffer_size in
      if not received
      then some (false, in_world w s)
      else (let (w', sent) = set_send_buffer_size K.sockets w s.fd N.buffer_size in
          if not sent then some (false, in_world w' s) else bind_socket address (in_world w' s))

  abbrev pub set_options : IpEndPoint → Family → QuicServer W → Option (Bool × QuicServer W)
  set_options address family s =
      let (w, rc) = set_get_address_info K.sockets s.epoll.world s.fd family in
      if ltb_ℤ rc (pos 0)
      then some (false, in_world w s)
      else (let (w', rc') = K.sockets.setsockopt w s.fd so_rxq_ovfl 1 in
          size_buffers address (record (in_world w' s) {
            overflow_supported = if ltb_ℤ rc' (pos 0) then s.overflow_supported else true;
          }))

  -- `Listen`.
  unfoldable pub listen : IpEndPoint → Family → QuicServer W → Option (Bool × QuicServer W)
  listen address family s =
      let (w, fd) = K.socket s.epoll.world family in
      let s' = record (in_world w s) { port = address.port; fd = fd } in
      if ltb_ℤ fd (pos 0) then some (false, s') else set_options address family s'
