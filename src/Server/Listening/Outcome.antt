-- ===== src/Server/Listening/Outcome.antt =====
-- quic_server.cc: how `Listen` ends.
use cmuquic.Prelude.{
  ℕ, ◌≡◌, refl, Bool, true, false, not, Option, none, some, List, ◌==◌, arith, Runs, Runs->>=,
  Runs-if,
}
use cmuquic.Prelude.Int.{ℤ, pos, ltb_ℤ, pos_part, ◌≤ℤ◌}
use cmuquic.Net.{IpEndPoint}
use cmuquic.Socket.{
  Family, SocketOption, so_rxq_ovfl, so_rcvbuf, so_sndbuf, ip_pktinfo, ipv6_recvpktinfo,
  set_get_address_info, set_receive_buffer_size, set_send_buffer_size,
}
use cmuquic.Epoll.Data.{Entry, Poll}
use cmuquic.Epoll.Registry.Keeps.{Consistent}
use cmuquic.Epoll.Registry.Kernel.{PollLaws, register_fd-Runs}
use cmuquic.Epoll.Loop.Turns.{with_world-Consistent}
use cmuquic.Server.Listening.{
  QuicServer, SocketCalls, Settings, in_world, start, find_port, bind_socket, size_buffers,
  set_options, listen,
}

-- The calls that make a socket watch nothing.
pub record SocketLaws {W : Type 0} (K : SocketCalls W) (watched : W → ℕ → Bool) : Type 0 where
  pub socket_keeps : (w : W) (f : Family) (q : ℕ) → watched (K.socket w f).0 q ≡ watched w q
  pub bind_keeps :
      (w : W) (fd : ℤ) (a : IpEndPoint) (q : ℕ) → watched (K.bind w fd a).0 q ≡ watched w q
  pub port_keeps : (w : W) (fd : ℤ) (q : ℕ) → watched (K.get_port w fd).0 q ≡ watched w q
  pub option_keeps :
      (w : W) (fd : ℤ) (o : SocketOption) (n q : ℕ)
      → watched (K.sockets.setsockopt w fd o n).0 q ≡ watched w q

module _ {W : Type 0} (K : SocketCalls W) (watched : W → ℕ → Bool) (L : SocketLaws K watched) where
  pub receive_keeps :
      (w : W) (fd : ℤ) (n q : ℕ)
      → watched (set_receive_buffer_size K.sockets w fd n).0 q ≡ watched w q
  unfolding set_receive_buffer_size
  receive_keeps w fd n q = ground (arith, L.option_keeps w fd so_rcvbuf n q)

  pub send_keeps :
      (w : W) (fd : ℤ) (n q : ℕ) → watched (set_send_buffer_size K.sockets w fd n).0 q ≡ watched w q
  unfolding set_send_buffer_size
  send_keeps w fd n q = ground (arith, L.option_keeps w fd so_sndbuf n q)

  pub info_keeps :
      (w : W) (fd : ℤ) (f : Family) (q : ℕ)
      → watched (set_get_address_info K.sockets w fd f).0 q ≡ watched w q
  unfolding set_get_address_info
  info_keeps w fd f q = ground (
    arith,
    L.option_keeps w fd ip_pktinfo 1 q,
    L.option_keeps (K.sockets.setsockopt w fd ip_pktinfo 1).0 fd ipv6_recvpktinfo 1 q,
  )

module _ {W : Type 0} (watched : W → ℕ → Bool) (ids : List (ℕ × Entry)) (was : Bool) where
  -- A server that has a socket, and has registered nothing since.
  pub record Opened (s : QuicServer W) : Type 0 where
    pub epoll : Consistent watched none s.epoll
    pub nothing : s.epoll.cb_map ≡ ids
    pub silent : s.listening ≡ was
    pub socket : pos 0 ≤ℤ s.fd

  -- How `Listen` ends, from a server with the entries `ids`.
  pub record Listened (p : Bool × QuicServer W) : Type 0 where
    pub epoll : Consistent watched none p.1.epoll
    pub failed : p.0 ≡ false → (p.1.epoll.cb_map ≡ ids) × (p.1.listening ≡ was)
    pub done : p.0 ≡ true → (p.1.listening ≡ true) × (pos 0 ≤ℤ p.1.fd)

  in_world-Opened :
      (w : W) (s : QuicServer W)
      → ((q : ℕ) → watched w q ≡ watched s.epoll.world q)
      → Opened s
      → Opened (in_world w s)
  in_world-Opened w s same o = record {
    epoll = with_world-Consistent watched none w s.epoll same o.epoll;
    nothing = o.nothing;
    silent = o.silent;
    socket = o.socket;
  }

  gives_up : (s : QuicServer W) → Opened s → Runs Listened (some (false, s))
  gives_up s o = (
    (false, s),
    refl,
    record { epoll = o.epoll; failed = λ e. (o.nothing, o.silent); done = λ e. absurd (cc) },
  )

  module _ (K : SocketCalls W) (P : Poll W) (N : Settings) (L : SocketLaws K watched)
      (PL : PollLaws P watched) where
    start-Listened : (s : QuicServer W) → Opened s → Runs Listened (start K P N s)
    start-Listened s o =
        Runs->>= (Consistent watched none) Listened _ _
          (register_fd-Runs P watched PL none (pos_part s.fd) N.callback N.epoll_flags s.epoll
            o.epoll)
          (λ e c. (
            _,
            refl,
            record { epoll = c; failed = λ h. absurd (cc); done = λ h. (refl, o.socket) },
          ))

    find_port-Listened : (s : QuicServer W) → Opened s → Runs Listened (find_port K P N s)
    find_port-Listened s o =
        Runs-if Listened (s.port == 0) _ _ (λ any. found (K.get_port s.epoll.world s.fd).1)
          (λ given. start-Listened s o)
      where
        s' : QuicServer W
        s' = in_world (K.get_port s.epoll.world s.fd).0 s

        o' : Opened s'
        o' = in_world-Opened _ s (L.port_keeps s.epoll.world s.fd) o

        found :
            (p : Option ℕ)
            → Runs Listened
                (elim p [ none ↦ some (false, s') | some n ↦ start K P N (record s' { port = n }) ])
        found none = gives_up s' o'
        found (some n) =
            start-Listened (record s' { port = n })
              (record {
                epoll = o'.epoll;
                nothing = o'.nothing;
                silent = o'.silent;
                socket = o'.socket;
              })

    bind_socket-Listened :
        (address : IpEndPoint) (s : QuicServer W)
        → Opened s
        → Runs Listened (bind_socket K P N address s)
    bind_socket-Listened address s o =
        let o' = in_world-Opened _ s (L.bind_keeps s.epoll.world s.fd address) o in
        Runs-if Listened (ltb_ℤ (K.bind s.epoll.world s.fd address).1 (pos 0)) _ _
          (λ failed. gives_up _ o') (λ bound. find_port-Listened _ o')

    size_buffers-Listened :
        (address : IpEndPoint) (s : QuicServer W)
        → Opened s
        → Runs Listened (size_buffers K P N address s)
    size_buffers-Listened address s o =
        let r = set_receive_buffer_size K.sockets s.epoll.world s.fd N.buffer_size in
        let t = set_send_buffer_size K.sockets r.0 s.fd N.buffer_size in
        let o1 =
          in_world-Opened r.0 s (receive_keeps K watched L s.epoll.world s.fd N.buffer_size) o in
        let o2 =
          in_world-Opened t.0 (in_world r.0 s) (send_keeps K watched L r.0 s.fd N.buffer_size) o1 in
        Runs-if Listened (not r.1) _ _ (λ failed. gives_up (in_world r.0 s) o1)
          (λ received.
            Runs-if Listened (not t.1) _ _ (λ failed. gives_up (in_world t.0 s) o2)
              (λ sent. bind_socket-Listened address (in_world t.0 s) o2))

    set_options-Listened :
        (address : IpEndPoint) (family : Family) (s : QuicServer W)
        → Opened s
        → Runs Listened (set_options K P N address family s)
    set_options-Listened address family s o =
        let r = set_get_address_info K.sockets s.epoll.world s.fd family in
        let t = K.sockets.setsockopt r.0 s.fd so_rxq_ovfl 1 in
        let o1 = in_world-Opened r.0 s (info_keeps K watched L s.epoll.world s.fd family) o in
        let o2 = in_world-Opened t.0 (in_world r.0 s) (L.option_keeps r.0 s.fd so_rxq_ovfl 1) o1 in
        Runs-if Listened (ltb_ℤ r.1 (pos 0)) _ _ (λ failed. gives_up (in_world r.0 s) o1)
          (λ set. size_buffers-Listened address _ (record {
            epoll = o2.epoll;
            nothing = o2.nothing;
            silent = o2.silent;
            socket = o2.socket;
          }))

module _ {W : Type 0} (watched : W → ℕ → Bool) (K : SocketCalls W) (P : Poll W) (N : Settings)
    (L : SocketLaws K watched) (PL : PollLaws P watched) where
  -- From a server whose epoll server is consistent, `Listen` returns. If it fails at any step, it has
  -- registered no descriptor and made no dispatcher; if it succeeds, it has a socket and a dispatcher. The
  -- epoll server is consistent in the end.
  pub listen-Listened :
      (address : IpEndPoint) (family : Family) (s : QuicServer W)
      → Consistent watched none s.epoll
      → Runs (Listened watched s.epoll.cb_map s.listening) (listen K P N address family s)
  unfolding listen
  listen-Listened address family s c =
      let r = K.socket s.epoll.world family in
      let s' : QuicServer W = record (in_world r.0 s) { port = address.port; fd = r.1 } in
      let c' : Consistent watched none s'.epoll =
        with_world-Consistent watched none r.0 s.epoll (L.socket_keeps s.epoll.world family) c in
      Runs-if (Listened watched s.epoll.cb_map s.listening) (ltb_ℤ r.1 (pos 0)) _ _
        (λ failed. (
          (false, s'),
          refl,
          record { epoll = c'; failed = λ e. (refl, refl); done = λ e. absurd (cc) },
        ))
        (λ good.
          set_options-Listened watched s.epoll.cb_map s.listening K P N L PL address family s'
            (record { epoll = c'; nothing = refl; silent = refl; socket = ground (arith, good) }))
