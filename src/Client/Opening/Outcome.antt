-- ===== src/Client/Opening/Outcome.antt =====
-- quic_client.cc: how `Initialize` ends.
use cmuquic.Prelude.{ℕ, ◌≡◌, refl, ◌∙◌, Bool, true, false, not, [], ◌∷◌, either_branch, arith}
use cmuquic.Prelude.Int.{ℤ, pos, ltb_ℤ, pos_part, ◌≤ℤ◌}
use cmuquic.Socket.{
  Family, so_rxq_ovfl, set_get_address_info, set_receive_buffer_size, set_send_buffer_size,
}
use cmuquic.Server.Listening.{Settings}
use cmuquic.Server.Listening.Outcome.{SocketLaws, receive_keeps, send_keeps, info_keeps}
use cmuquic.Client.Data.{QuicClient, ClientCalls, bound_address}
use cmuquic.Client.Opening.{
  find_address, bind_socket, get_address_info, size_buffers, create_udp_socket,
}

-- The calls of the client that make and close a socket watch nothing. The last holds of a descriptor
-- that is not watched.
pub record ClientLaws {W : Type 0} (K : ClientCalls W) (watched : W → ℕ → Bool) : Type 0 where
  pub sockets : SocketLaws K.calls watched
  pub port_keeps : (w : W) (fd : ℤ) (q : ℕ) → watched (K.sin_port w fd).0 q ≡ watched w q
  pub close_keeps :
      (w : W) (fd : ℤ)
      → watched w (pos_part fd) ≡ false
      → (q : ℕ) → watched (K.close w fd) q ≡ watched w q

module _ {W : Type 0} (watched : W → ℕ → Bool) (c : QuicClient) (w : W) where
  -- What `CreateUDPSocket` leaves, from the client c in the world w.
  pub record Created (p : Bool × QuicClient × W) : Type 0 where
    pub kernel : (q : ℕ) → watched p.2 q ≡ watched w q
    pub socket : p.0 ≡ true → pos 0 ≤ℤ p.1.fd
    pub any : p.0 ≡ true → p.1.client_address.address ≡ 0 ∷ 0 ∷ 0 ∷ 0 ∷ []
    pub config : p.1.config ≡ c.config
    pub initialized : p.1.initialized ≡ c.initialized
    pub session : p.1.session ≡ c.session

  -- A client whose socket was made.
  record Making (c' : QuicClient) (w' : W) : Type 0 where
    kernel : (q : ℕ) → watched w' q ≡ watched w q
    socket : pos 0 ≤ℤ c'.fd
    config : c'.config ≡ c.config
    initialized : c'.initialized ≡ c.initialized
    session : c'.session ≡ c.session

  gives_up : (c' : QuicClient) (w' : W) → Making c' w' → Created (false, c', w')
  gives_up c' w' m = record {
    kernel = m.kernel;
    socket = λ e. absurd (cc);
    any = λ e. absurd (cc);
    config = m.config;
    initialized = m.initialized;
    session = m.session;
  }

  goes_on :
      (c' : QuicClient) (w1 w2 : W)
      → ((q : ℕ) → watched w2 q ≡ watched w1 q)
      → Making c' w1
      → Making c' w2
  goes_on c' w1 w2 k m = record {
    kernel = λ q. k q ∙ m.kernel q;
    socket = m.socket;
    config = m.config;
    initialized = m.initialized;
    session = m.session;
  }

  module _ (K : ClientCalls W) (N : Settings) (L : ClientLaws K watched) where
    bind_socket-Created :
        (f : Family) (c' : QuicClient) (w' : W) → Making c' w' → Created (bind_socket K N f c' w')
    bind_socket-Created f c' w' m =
        let a = bound_address f c' in
        let r = K.calls.bind w' c'.fd a in
        let c1 : QuicClient = record c' { client_address = a } in
        let m1 : Making c1 r.0 = record {
          kernel = λ q. L.sockets.bind_keeps w' c'.fd a q ∙ m.kernel q;
          socket = m.socket;
          config = m.config;
          initialized = m.initialized;
          session = m.session;
        } in
        either_branch Created (ltb_ℤ r.1 (pos 0)) (false, c1, r.0) (find_address K N c1 r.0)
          (λ failed. gives_up c1 r.0 m1)
          (λ bound. record {
            kernel = λ q. L.port_keeps r.0 c'.fd q ∙ m1.kernel q;
            socket = λ e. m.socket;
            any = λ e. refl;
            config = m.config;
            initialized = m.initialized;
            session = m.session;
          })

    get_address_info-Created :
        (f : Family) (c' : QuicClient) (w' : W)
        → Making c' w'
        → Created (get_address_info K N f c' w')
    get_address_info-Created f c' w' m =
        let r = set_get_address_info K.calls.sockets w' c'.fd f in
        let m1 = goes_on c' w' r.0 (info_keeps K.calls watched L.sockets w' c'.fd f) m in
        either_branch Created (ltb_ℤ r.1 (pos 0)) (false, c', r.0) (bind_socket K N f c' r.0)
          (λ failed. gives_up c' r.0 m1) (λ set. bind_socket-Created f c' r.0 m1)

    size_buffers-Created :
        (f : Family) (c' : QuicClient) (w' : W) → Making c' w' → Created (size_buffers K N f c' w')
    size_buffers-Created f c' w' m =
        let r = set_receive_buffer_size K.calls.sockets w' c'.fd N.buffer_size in
        let t = set_send_buffer_size K.calls.sockets r.0 c'.fd N.buffer_size in
        let m1 =
          goes_on c' w' r.0 (receive_keeps K.calls watched L.sockets w' c'.fd N.buffer_size) m in
        let m2 =
          goes_on c' r.0 t.0 (send_keeps K.calls watched L.sockets r.0 c'.fd N.buffer_size) m1 in
        either_branch Created (not r.1) (false, c', r.0) _ (λ failed. gives_up c' r.0 m1)
          (λ received.
            either_branch Created (not t.1) (false, c', t.0) (get_address_info K N f c' t.0)
              (λ failed. gives_up c' t.0 m2) (λ sent. get_address_info-Created f c' t.0 m2))

    pub create_udp_socket-Created : (f : Family) → Created (create_udp_socket K N f c w)
    unfolding create_udp_socket
    create_udp_socket-Created f =
        let r = K.calls.socket w f in
        let t = K.calls.sockets.setsockopt r.0 r.1 so_rxq_ovfl 1 in
        let c1 : QuicClient = record c { fd = r.1 } in
        either_branch Created (ltb_ℤ r.1 (pos 0)) (false, c1, r.0) _
          (λ failed. record {
            kernel = L.sockets.socket_keeps w f;
            socket = λ e. absurd (cc);
            any = λ e. absurd (cc);
            config = refl;
            initialized = refl;
            session = refl;
          })
          (λ good. size_buffers-Created f _ t.0 (record {
            kernel =
                λ q. L.sockets.option_keeps r.0 r.1 so_rxq_ovfl 1 q ∙ L.sockets.socket_keeps w f q;
            socket = ground (arith, good);
            config = refl;
            initialized = refl;
            session = refl;
          }))
