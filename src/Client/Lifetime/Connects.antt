-- ===== src/Client/Lifetime/Connects.antt =====
-- quic_client.cc: how `Connect` ends, and a second `Disconnect`.
use cmuquic.Prelude.{
  ℕ, zero, suc, ◌<◌, ◌≡◌, refl, ◌∙◌, ap, sym, Bool, true, false, not, ◌&&◌, Option, none, some,
  Runs, Runs->>=, Runs-if, ◌>>=◌, arith,
}
use cmuquic.Alarms.Data.{Alarms}
use cmuquic.Cycle.{Calls}
use cmuquic.Cycle.Executed.{AtRest, CallLaws, IsReady, wait_for_events_and_execute_callbacks-Runs}
use cmuquic.Client.Data.{QuicClient, Objects, ClientCalls, Running, alarms, with_alarms}
use cmuquic.Client.Lifetime.{
  on_object, connected, is_pending, start_connect, wait_for_events, connect_loop, connect,
  after_close, close_socket, disconnect,
}
use cmuquic.Client.Lifetime.Closed.{IsQuiet, ObjectLaws, with_alarms-IsReady, Disconnected}

module _ {W : Type 0} (watched : W → ℕ → Bool) where
  -- The epoll server of a client, between two calls of its main operation.
  abbrev pub Waits : Running W → Type 0
  Waits r = IsReady watched r.epoll.state × (r.epoll.in_wait ≡ false)

module _ {W : Type 0} (watched : W → ℕ → Bool) (O : Objects (Alarms W)) (C : Calls W) where
  -- Each wait brings the handshake nearer to its end, by a measure of the state.
  abbrev pub Nears : (Running W → ℕ) → Type 0
  Nears μ =
      (r r' : Running W)
      → Waits watched r
      → is_pending O r ≡ true
      → wait_for_events O C r ≡ some r'
      → μ r' < μ r

  -- How the loop ends.
  abbrev pub Settles : QuicClient → Running W → Type 0
  Settles c r = Waits watched r × (r.client ≡ c) × (is_pending O r ≡ false)

  -- The encryption of the client's session is established.
  abbrev pub is_established : Running W → Bool
  is_established r = elim r.client.session [
    | none ↦ false
    | some x ↦ O.is_encryption_established (alarms r) x
  ]

  -- How `Connect` ends.
  pub record Connected (before : QuicClient) (p : Bool × Running W) : Type 0 where
    pub waits : Waits watched p.1
    pub client : p.1.client ≡ before
    pub answer : p.0 ≡ connected O p.1.client (alarms p.1)
    pub secure : p.0 ≡ true → is_established p.1 ≡ true

module _ {W : Type 0} (watched : W → ℕ → Bool) (R : ℕ → Bool) (O : Objects (Alarms W)) (C : Calls W)
    (OL : ObjectLaws watched O) (CL : CallLaws watched R C) where
  wait_for_events-Runs :
      (r : Running W)
      → Waits watched r
      → Runs (λ r'. Waits watched r' × (r'.client ≡ r.client)) (wait_for_events O C r)
  unfolding wait_for_events
  wait_for_events-Runs r (v, free) =
      Runs->>= _ _ _ _ (wait_for_events_and_execute_callbacks-Runs watched R C CL r.epoll v free)
        (λ e (v', free', zeroed, called). (_, refl, ((v', free'), refl)))

  connect_loop-Runs :
      (μ : Running W → ℕ) (fuel : ℕ) (r : Running W)
      → Nears watched O C μ
      → Waits watched r
      → μ r < fuel
      → Runs (Settles watched O C r.client) (connect_loop O C fuel r)
  unfolding connect_loop
  connect_loop-Runs μ zero r near v lt = absurd (omega (arith, lt))
  connect_loop-Runs μ (suc fuel) r near v lt =
      Runs-if (Settles watched O C r.client) (is_pending O r) _ (some r)
        (λ pending.
          let (r', run, (v', same)) = wait_for_events-Runs r v in
          let less = near r r' v pending run in
          rw run (
            let (r'', e, (w, kept, over)) =
              connect_loop-Runs μ fuel r' near v' (omega (arith, less, lt)) in
            (r'', e, (w, kept ∙ same, over))))
        (λ over. (r, refl, (v, refl, over)))

  -- A call of the library after others.
  quiet_then :
      (a b : Alarms W) (f : Alarms W → Alarms W)
      → ((x : Alarms W) → AtRest x → IsQuiet watched x (f x))
      → IsQuiet watched a b
      → IsQuiet watched a (f b)
  quiet_then a b f q (v, same) = let (v', same') = q b v in (v', λ i. same' i ∙ same i)

  on_object-quiet :
      (f : Alarms W → ℕ → Alarms W) (o : Option ℕ)
      → ((a : Alarms W) (x : ℕ) → AtRest a → IsQuiet watched a (f a x))
      → (a : Alarms W) → AtRest a
      → IsQuiet watched a (on_object f o a)
  on_object-quiet f none q a v = (v, λ i. refl)
  on_object-quiet f (some x) q a v = q a x v

  start_connect-Waits : (r : Running W) → Waits watched r → Waits watched (start_connect O r)
  unfolding start_connect
  start_connect-Waits r (v, free) =
      let c = r.client in
      let a0 = alarms r in
      let w = O.new_writer a0 c.fd in
      let x = O.new_session w.0 c.config c.server_address w.1 in
      let q1 = OL.writer_made a0 c.fd v.alarms in
      let q2 =
        quiet_then a0 w.0 (λ a. (O.new_session a c.config c.server_address w.1).0)
          (λ a i. OL.session_made a c.config c.server_address w.1 i) q1 in
      let q3 =
        quiet_then a0 _ (on_object O.delete_session c.session)
          (on_object-quiet O.delete_session c.session OL.session_gone) q2 in
      let q4 =
        quiet_then a0 _ (on_object O.delete_writer c.writer)
          (on_object-quiet O.delete_writer c.writer OL.writer_gone) q3 in
      let q5 = quiet_then a0 _ (λ a. O.initialize_session a x.1) (λ a i. OL.begun a x.1 i) q4 in
      let q6 = quiet_then a0 _ (λ a. O.crypto_connect a x.1) (λ a i. OL.crypto a x.1 i) q5 in
      (with_alarms-IsReady watched _ r.epoll.state v q6, free)

  established :
      (o : Option ℕ) (a : Alarms W)
      → elim o [ none ↦ false | some x ↦ not (O.is_encryption_established a x) && O.connected a x ]
        ≡ false
      → elim o [ none ↦ false | some x ↦ O.connected a x ] ≡ true
      → elim o [ none ↦ false | some x ↦ O.is_encryption_established a x ] ≡ true
  established none a h on = absurd (cc)
  established (some x) a h on = ground (arith, h, on)

  -- If each wait brings the handshake nearer to its end by some measure, as the timeout of the
  -- handshake does, then `Connect` returns from an epoll server at rest, after as many turns as the
  -- measure allows, and leaves it at rest. It returns whether the connection is open, and if it is,
  -- its encryption is established.
  pub connect-Connected :
      (μ : Running W → ℕ) (fuel : ℕ) (r : Running W)
      → Nears watched O C μ
      → Waits watched r
      → μ (start_connect O r) < fuel
      → Runs (Connected watched O C (start_connect O r).client) (connect O C fuel r)
  unfolding connect connected
  connect-Connected μ fuel r near v lt =
      Runs->>= _ _ _ _
        (connect_loop-Runs μ fuel (start_connect O r) near (start_connect-Waits r v) lt)
        (λ r' (w, kept, over). (
          _,
          refl,
          record {
            waits = w;
            client = kept;
            answer = refl;
            secure = established r'.client.session (alarms r') over;
          },
        ))

module _ {W : Type 0} (watched : W → ℕ → Bool) (O : Objects (Alarms W)) (K : ClientCalls W)
    (C : Calls W) where
  -- A client that is disconnected stays as it is.
  pub disconnect-Disconnected_again :
      (before r : Running W) → Disconnected watched O before r → disconnect O K C r ≡ some r
  unfolding disconnect
  disconnect-Disconnected_again before r d =
      let idle : after_close O r ≡ r = ap (λ a. with_alarms a r) (ground (arith, d.offline)) in
      let shut : close_socket O K C r ≡ some r = ground (arith, d.socket) in
      let kept : ◌≡◌ {A = Running W} (record r { client = record r.client { initialized = false } })
          r =
        ap (λ b. record r { client = record r.client { initialized = b } }) (sym d.initialized) in
      ap (λ x. close_socket O K C x >>= over) idle ∙ ap (λ o. o >>= over) shut ∙ ap some kept
    where
      over : Running W → Option (Running W)
      over x = some (record x { client = record x.client { initialized = false } })
