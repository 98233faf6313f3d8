-- ===== src/Client/Opening.antt =====
-- quic_client.cc: how the client makes its socket, and initializes. `none` is a call of `epoll_ctl` that
-- fails.
pub mod Outcome
pub mod Initialized
use cmuquic.Prelude.{
  ℕ, ◌*◌, Bool, true, false, not, Option, none, some, [], ◌∷◌, if◌then◌else◌, ◌>>=◌,
}
use cmuquic.Prelude.Int.{pos, ltb_ℤ, pos_part}
use cmuquic.Net.{IpEndPoint}
use cmuquic.Socket.{
  Family, so_rxq_ovfl, set_get_address_info, set_receive_buffer_size, set_send_buffer_size,
}
use cmuquic.Epoll.Registry.{register_fd}
use cmuquic.Cycle.{Calls, in_world}
use cmuquic.Server.Listening.{Settings}
use cmuquic.Client.Data.{
  QuicClient, ClientCalls, Running, with_state, alarms, initial_windows, bound_address,
}

-- The port in memory that `getsockname` was to write.
abbrev pub port_in : ℕ → Option ℕ → ℕ
port_in before none = before
port_in before (some p) = p

module _ {W : Type 0} (K : ClientCalls W) (N : Settings) where
  -- The end of `CreateUDPSocket`: the ephemeral port. A failure of `getsockname` is only logged.
  abbrev pub find_address : QuicClient → W → Bool × QuicClient × W
  find_address c w =
      let (w', found) = K.sin_port w c.fd in
      let port = port_in K.sin_port_before found in
      (true, record c { client_address = record { address = 0 ∷ 0 ∷ 0 ∷ 0 ∷ []; port = port } }, w')

  abbrev pub bind_socket : Family → QuicClient → W → Bool × QuicClient × W
  bind_socket family c w =
      let c' = record c { client_address = bound_address family c } in
      let (w', rc) = K.calls.bind w c'.fd c'.client_address in
      if ltb_ℤ rc (pos 0) then (false, c', w') else find_address c' w'

  abbrev pub get_address_info : Family → QuicClient → W → Bool × QuicClient × W
  get_address_info family c w =
      let (w', rc) = set_get_address_info K.calls.sockets w c.fd family in
      if ltb_ℤ rc (pos 0) then (false, c, w') else bind_socket family c w'

  abbrev pub size_buffers : Family → QuicClient → W → Bool × QuicClient × W
  size_buffers family c w =
      let (w', received) = set_receive_buffer_size K.calls.sockets w c.fd N.buffer_size in
      if not received
      then (false, c, w')
      else (let (w'', sent) = set_send_buffer_size K.calls.sockets w' c.fd N.buffer_size in
          if not sent then (false, c, w'') else get_address_info family c w'')

  -- `CreateUDPSocket`.
  unfoldable pub create_udp_socket : Family → QuicClient → W → Bool × QuicClient × W
  create_udp_socket family c w =
      let (w', fd) = K.calls.socket w family in
      let c' = record c { fd = fd } in
      if ltb_ℤ fd (pos 0)
      then (false, c', w')
      else (let (w'', rc) = K.calls.sockets.setsockopt w' fd so_rxq_ovfl 1 in
          size_buffers family
            (record c' {
              overflow_supported = if ltb_ℤ rc (pos 0) then c.overflow_supported else true;
            })
            w'')

module _ {W : Type 0} (K : ClientCalls W) (N : Settings) (C : Calls W) (least : ℕ) where
  -- The client and the epoll server before the socket is made.
  abbrev pub prepared : Running W → Running W
  prepared r = record {
    client = record r.client { config = initial_windows least r.client.config };
    epoll = record r.epoll { timeout_in_us = pos (50 * 1000) };
  }

  -- The end of `Initialize`.
  abbrev pub watch : Running W → Option (Bool × Running W)
  watch r =
      register_fd C.poll (pos_part r.client.fd) N.callback N.epoll_flags r.epoll.state >>= λ e.
      some (true, record (with_state e r) { client = record r.client { initialized = true } })

  -- `Initialize`, with the family of the server's address.
  unfoldable pub initialize : Family → Running W → Option (Bool × Running W)
  initialize family r =
      let r' = prepared r in
      let (made, c, w) = create_udp_socket K N family r'.client (alarms r').world in
      let r'' = record (with_state (in_world w r'.epoll.state) r') { client = c } in
      if not made then some (false, r'') else watch r''
