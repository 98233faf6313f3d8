-- ===== src/Client/Opening/Initialized.antt =====
-- quic_client.cc: how `Initialize` ends.
use cmuquic.Prelude.{
  ℕ, ◌*◌, ◌≡◌, refl, Bool, true, false, not, some, Runs, Runs-if, ap, ◌>>=◌, arith,
}
use cmuquic.Prelude.Assoc.{lookup}
use cmuquic.Prelude.Int.{pos, pos_part, ◌≤ℤ◌}
use cmuquic.Socket.{Family}
use cmuquic.Epoll.Data.{register}
use cmuquic.Epoll.Registry.Kernel.{PollLaws}
use cmuquic.Epoll.Registry.Callbacks.{callback_of, register_fd-callback}
use cmuquic.Epoll.Loop.{obey}
use cmuquic.Cycle.{Calls, in_world}
use cmuquic.Cycle.Events.{PollKeeps}
use cmuquic.Cycle.Executed.{AtRest, IsReady, watched_below, in_world-IsReady}
use cmuquic.Cycle.Commands.{obey-IsReady}
use cmuquic.Server.Listening.{Settings}
use cmuquic.Client.Data.{ClientCalls, Running, with_state, alarms, initial_windows}
use cmuquic.Client.Opening.{create_udp_socket, prepared, watch, initialize}
use cmuquic.Client.Opening.Outcome.{ClientLaws, create_udp_socket-Created}

module _ {W : Type 0} (watched : W → ℕ → Bool) (N : Settings) (least : ℕ) where
  -- How `Initialize` ends, from a client with its epoll server.
  pub record Initialized (before : Running W) (p : Bool × Running W) : Type 0 where
    pub ready : IsReady watched p.1.epoll.state
    pub windows : p.1.client.config ≡ initial_windows least before.client.config
    pub timeout : p.1.epoll.timeout_in_us ≡ pos (50 * 1000)
    pub failed :
        p.0 ≡ false
        → (p.1.epoll.state.cb_map ≡ before.epoll.state.cb_map)
          × (p.1.client.initialized ≡ before.client.initialized)
    pub done :
        p.0 ≡ true
        → (p.1.client.initialized ≡ true)
          × (pos 0 ≤ℤ p.1.client.fd)
          × (callback_of (lookup (pos_part p.1.client.fd) p.1.epoll.state.cb_map) ≡ some N.callback)

module _ {W : Type 0} (watched : W → ℕ → Bool) (K : ClientCalls W) (N : Settings) (C : Calls W)
    (least : ℕ) (L : ClientLaws K watched) (PL : PollLaws C.poll (watched_below watched))
    (PK : PollKeeps AtRest C.poll) where
  watch-Initialized :
      (before r : Running W)
      → IsReady watched r.epoll.state
      → pos 0 ≤ℤ r.client.fd
      → r.client.config ≡ initial_windows least before.client.config
      → r.epoll.timeout_in_us ≡ pos (50 * 1000)
      → Runs (Initialized watched N least before) (watch K N C least r)
  unfolding obey
  watch-Initialized before r v socket config timeout =
      let fd = pos_part r.client.fd in
      let (e, run, v') =
        obey-IsReady watched C PL PK (register fd N.callback N.epoll_flags) r.epoll.state v in
      let here = register_fd-callback C.poll fd N.callback N.epoll_flags r.epoll.state e run in
      let r' : Running W = record (with_state e r) {
        client = record r.client { initialized = true };
      } in
      (
        (true, r'),
        ap
            (λ o. o >>= λ x.
              some
                (true, record (with_state x r) { client = record r.client { initialized = true } }))
            run,
        record {
          ready = v';
          windows = config;
          timeout = timeout;
          failed = λ h. absurd (cc);
          done = λ h. (refl, socket, here);
        },
      )

  -- If the calls that make the socket watch no descriptor, then `Initialize` returns from an epoll
  -- server at rest, and leaves it at rest, with a timeout of 50 milliseconds, and the config with the
  -- initial windows. If it fails, no descriptor was registered or unregistered, and the client is
  -- as initialized as before; if it succeeds, the client is initialized, and its socket is registered with
  -- the client as its callback.
  pub initialize-Initialized :
      (family : Family) (r : Running W)
      → IsReady watched r.epoll.state
      → Runs (Initialized watched N least r) (initialize K N C least family r)
  unfolding initialize
  initialize-Initialized family r v =
      let r1 = prepared K N C least r in
      let p = create_udp_socket K N family r1.client (alarms r1).world in
      let made = create_udp_socket-Created watched r1.client (alarms r1).world K N L family in
      let r2 : Running W = record (with_state (in_world p.2 r1.epoll.state) r1) { client = p.1 } in
      let v2 = in_world-IsReady watched p.2 r1.epoll.state made.kernel v in
      Runs-if _ (not p.0) (some (false, r2)) _
        (λ failed. (
          (false, r2),
          refl,
          record {
            ready = v2;
            windows = made.config;
            timeout = refl;
            failed = λ h. (refl, made.initialized);
            done = λ h. absurd (cc);
          },
        ))
        (λ good. watch-Initialized r r2 v2 (made.socket (ground (arith, good))) made.config refl)
