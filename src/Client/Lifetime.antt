-- ===== src/Client/Lifetime.antt =====
-- quic_client.cc: the connection of the client, and its events. `none` is what ends the program, or a loop
-- that does not end.
pub mod Closed
pub mod Connects
pub mod Events
pub mod Twice
use cmuquic.Prelude.{
  ℕ, zero, suc, bit_and, Bool, true, false, not, ◌&&◌, Option, none, some, List, [], ◌∷◌, ◌==◌,
  if◌then◌else◌, ◌>>=◌,
}
use cmuquic.Prelude.Int.{ℤ, pos, negsuc, ltb_ℤ, pos_part}
use cmuquic.Socket.{ReadResult}
use cmuquic.Epoll.Registry.{unregister_fd}
use cmuquic.Alarms.Data.{Alarms}
use cmuquic.Cycle.{Calls, in_world, wait_for_events_and_execute_callbacks}
use cmuquic.Server.{EventBits}
use cmuquic.Client.Data.{QuicClient, Objects, ClientCalls, Running, with_state, alarms, with_alarms}

module _ {W : Type 0} where
  -- A call on an object, if there is one.
  abbrev pub on_object : (Alarms W → ℕ → Alarms W) → Option ℕ → Alarms W → Alarms W
  on_object f none a = a
  on_object f (some x) a = f a x

module _ {W : Type 0} (O : Objects (Alarms W)) where
  -- `connected`.
  unfoldable pub connected : QuicClient → Alarms W → Bool
  connected c a = elim c.session [ none ↦ false | some x ↦ O.connected a x ]

  -- `ReadAndProcessPacket`, with what `ReadPacket` has returned.
  unfoldable pub read_and_process_packet : QuicClient → ReadResult → Alarms W → Bool × Alarms W
  read_and_process_packet c r a = if ltb_ℤ r.bytes_read (pos 0) then (false, a) else (
    true,
    on_object
        (λ a' x.
          O.process_udp_packet a' x
            (record { address = r.self_address; port = c.client_address.port }) r.peer_address
            r.buffer)
        c.session a,
  )

  -- The loop of `OnEvent` over what the reads return: the reads that are left, and the alarms.
  unfoldable pub read_all : QuicClient → List ReadResult → Alarms W → List ReadResult × Alarms W
  read_all c [] a = ([], a)
  read_all c (r ∷ rs) a =
      let (more, a') = read_and_process_packet c r a in
      let rest = read_all c rs a' in
      if connected c a then (if more then rest else (rs, a')) else (r ∷ rs, a)

  -- `OnEvent`, with the mask of the event and the reads.
  unfoldable pub on_event : EventBits → QuicClient → ℕ → List ReadResult → Alarms W → Alarms W
  on_event bits c in_events reads a =
      let (left, read) = read_all c reads a in
      let a' = if not (bit_and in_events bits.epollin == 0) then read else a in
      let written = on_object O.on_can_write c.session (on_object O.set_writable c.writer a') in
      if connected c a' && not (bit_and in_events bits.epollout == 0) then written else a'

  -- `CreateClientStream`.
  unfoldable pub create_client_stream : QuicClient → Alarms W → Option ℕ × Alarms W
  create_client_stream c a = if not (connected c a) then (none, a) else elim c.session [
    | none ↦ (none, a)
    | some x ↦ let (a', stream) = O.create_client_stream a x in (some stream, a')
  ]

  -- `Connect`, to the end of `CryptoConnect`. The old session is deleted before the old writer.
  unfoldable pub start_connect : Running W → Running W
  start_connect r =
      let c = r.client in
      let (a1, writer) = O.new_writer (alarms r) c.fd in
      let (a2, session) = O.new_session a1 c.config c.server_address writer in
      let a3 = on_object O.delete_writer c.writer (on_object O.delete_session c.session a2) in
      let a4 = O.crypto_connect (O.initialize_session a3 session) session in
      with_alarms a4
        (record r { client = record c { writer = some writer; session = some session } })

  -- The condition of the loop of `Connect`.
  abbrev pub is_pending : Running W → Bool
  is_pending r = elim r.client.session [
    | none ↦ false
    | some x ↦ not (O.is_encryption_established (alarms r) x) && O.connected (alarms r) x
  ]

  -- The connection of the client goes.
  abbrev pub after_close : Running W → Running W
  after_close r =
      let c = r.client in
      with_alarms
        (if connected c (alarms r)
          then on_object (λ a x. O.send_connection_close a x O.peer_going_away) c.session (alarms r)
          else alarms r)
        r

module _ {W : Type 0} (O : Objects (Alarms W)) (C : Calls W) where
  -- `WaitForEvents`.
  unfoldable pub wait_for_events : Running W → Option (Running W)
  wait_for_events r =
      wait_for_events_and_execute_callbacks C r.epoll >>= λ e. some (record r { epoll = e })

  -- The loop of `Connect`, on fuel.
  unfoldable pub connect_loop : ℕ → Running W → Option (Running W)
  connect_loop zero r = none
  connect_loop (suc fuel) r =
      if is_pending O r then (wait_for_events r >>= connect_loop fuel) else some r

  -- `Connect`, with a bound on the turns of its loop.
  unfoldable pub connect : ℕ → Running W → Option (Bool × Running W)
  connect fuel r =
      connect_loop fuel (start_connect O r) >>= λ r'. some (connected O r'.client (alarms r'), r')

module _ {W : Type 0} (O : Objects (Alarms W)) (K : ClientCalls W) (C : Calls W) where
  -- The socket of the client goes.
  abbrev pub close_socket : Running W → Option (Running W)
  close_socket r =
      if ltb_ℤ (negsuc 0) r.client.fd
      then (unregister_fd C.poll (pos_part r.client.fd) r.epoll.state >>= λ e.
          some (record (with_state (in_world (K.close e.world.world r.client.fd) e) r) {
            client = record r.client { fd = negsuc 0 };
          }))
      else some r

  -- `Disconnect`, which is also the destructor.
  unfoldable pub disconnect : Running W → Option (Running W)
  disconnect r = close_socket (after_close O r) >>= λ r'.
      some (record r' { client = record r'.client { initialized = false } })
