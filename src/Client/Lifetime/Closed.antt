-- ===== src/Client/Lifetime/Closed.antt =====
-- quic_client.cc: how `Disconnect` ends.
use cmuquic.Prelude.{
  ℕ, ◌≡◌, refl, ◌∙◌, ap, Bool, true, false, Option, none, some, Runs, Runs->>=, Runs-if, ◌>>=◌,
  either_branch, arith,
}
use mathlib.Core.Path.{subst}
use cmuquic.Prelude.Assoc.{lookup}
use cmuquic.Prelude.Int.{ℤ, negsuc, ltb_ℤ, pos_part}
use cmuquic.Net.{IpEndPoint, Windows}
use cmuquic.Epoll.Data.{Entry, EpollServer, unregister}
use cmuquic.Epoll.Registry.{unregister_fd}
use cmuquic.Epoll.Registry.Kernel.{PollLaws}
use cmuquic.Epoll.Registry.Keeps.{Slot-at}
use cmuquic.Epoll.Registry.Callbacks.{callback_of, unregister_fd-callback}
use cmuquic.Epoll.Loop.{obey}
use cmuquic.Epoll.Loop.Turns.{with_world-Consistent}
use cmuquic.Alarms.Data.{Alarms}
use cmuquic.Cycle.{Calls, in_world}
use cmuquic.Cycle.Events.{PollKeeps, obey-Keeps}
use cmuquic.Cycle.Executed.{AtRest, IsReady, watched_below, in_world-IsReady}
use cmuquic.Cycle.Commands.{obey-IsReady}
use cmuquic.Client.Data.{Objects, ClientCalls, Running, with_state, alarms}
use cmuquic.Client.Opening.Outcome.{ClientLaws}
use cmuquic.Client.Lifetime.{connected, on_object, close_socket, after_close, disconnect}

module _ {W : Type 0} (watched : W → ℕ → Bool) where
  -- A call of the library leaves the alarms at rest, and the watched descriptors as they are.
  abbrev pub IsQuiet : Alarms W → Alarms W → Type 0
  IsQuiet a a' = AtRest a' × ((q : ℕ) → watched a'.world q ≡ watched a.world q)

  -- What the client relies on in the objects that it makes.
  pub record ObjectLaws (O : Objects (Alarms W)) : Type 0 where
    pub writer_made : (a : Alarms W) (fd : ℤ) → AtRest a → IsQuiet a (O.new_writer a fd).0
    pub session_made :
        (a : Alarms W) (c : Windows) (p : IpEndPoint) (x : ℕ)
        → AtRest a
        → IsQuiet a (O.new_session a c p x).0
    pub session_gone : (a : Alarms W) (x : ℕ) → AtRest a → IsQuiet a (O.delete_session a x)
    pub writer_gone : (a : Alarms W) (x : ℕ) → AtRest a → IsQuiet a (O.delete_writer a x)
    pub begun : (a : Alarms W) (x : ℕ) → AtRest a → IsQuiet a (O.initialize_session a x)
    pub crypto : (a : Alarms W) (x : ℕ) → AtRest a → IsQuiet a (O.crypto_connect a x)
    pub closing : (a : Alarms W) (x e : ℕ) → AtRest a → IsQuiet a (O.send_connection_close a x e)
    -- A connection that sends a close is closed.
    pub closed : (a : Alarms W) (x e : ℕ) → O.connected (O.send_connection_close a x e) x ≡ false

  pub with_alarms-IsReady :
      (a : Alarms W) (s : EpollServer (Alarms W))
      → IsReady watched s
      → IsQuiet s.world a
      → IsReady watched (record s { world = a })
  with_alarms-IsReady a s v (rests, same) = record {
    descriptors = with_world-Consistent (watched_below watched) none a s same v.descriptors;
    tmp = v.tmp;
    alarms = rests;
  }

module _ {W : Type 0} (watched : W → ℕ → Bool) (O : Objects (Alarms W)) where
  -- A client after `Disconnect`.
  pub record Disconnected (before r : Running W) : Type 0 where
    pub ready : IsReady watched r.epoll.state
    pub offline : connected O r.client (alarms r) ≡ false
    pub socket : ltb_ℤ (negsuc 0) r.client.fd ≡ false
    pub initialized : r.client.initialized ≡ false
    pub unwatched :
        ltb_ℤ (negsuc 0) before.client.fd ≡ true
        → callback_of (lookup (pos_part before.client.fd) r.epoll.state.cb_map) ≡ none

module _ {W : Type 0} (O : Objects (Alarms W)) where
  -- A connection that is closed stays closed while descriptors are registered, unregistered and closed.
  pub record StaysClosed (K : ClientCalls W) (C : Calls W) : Type 0 where
    pub polls : (x : ℕ) → PollKeeps (λ a. O.connected a x ≡ false) C.poll
    pub closes :
        (x : ℕ) (a : Alarms W) (fd : ℤ)
        → O.connected a x ≡ false
        → O.connected (record a { world = K.close a.world fd }) x ≡ false

module _ {W : Type 0} (watched : W → ℕ → Bool) (O : Objects (Alarms W)) (K : ClientCalls W)
    (C : Calls W) (OL : ObjectLaws watched O) (L : ClientLaws K watched)
    (PL : PollLaws C.poll (watched_below watched)) (PK : PollKeeps AtRest C.poll)
    (SC : StaysClosed O K C) where
  connected-obeyed :
      (fd : ℕ) (o : Option ℕ) (e s : EpollServer (Alarms W))
      → elim o [ none ↦ false | some x ↦ O.connected s.world x ] ≡ false
      → unregister_fd C.poll fd s ≡ some e
      → elim o [ none ↦ false | some x ↦ O.connected e.world x ] ≡ false
  unfolding obey
  connected-obeyed fd none e s h run = refl
  connected-obeyed fd (some x) e s h run =
      obey-Keeps (λ a. O.connected a x ≡ false) C.poll (SC.polls x) (unregister fd) s h e run

  -- Without a callback the descriptor is not watched.
  unwatched :
      (fd : ℕ) (e : EpollServer (Alarms W))
      → IsReady watched e
      → callback_of (lookup fd e.cb_map) ≡ none
      → watched e.world.world fd ≡ false
  unwatched fd e v h = by_entry (lookup fd e.cb_map) refl h
    where
      by_entry :
          (o : Option Entry)
          → lookup fd e.cb_map ≡ o
          → callback_of o ≡ none
          → watched e.world.world fd ≡ false
      by_entry none found h =
          (Slot-at (watched_below watched) none fd e none v.descriptors found).kernel
      by_entry (some n) found h =
          (Slot-at (watched_below watched) none fd e (some n) v.descriptors found).kernel
          ∙ ground (arith, h)

  connected-closed :
      (o : Option ℕ) (a : Alarms W) (fd : ℤ)
      → elim o [ none ↦ false | some x ↦ O.connected a x ] ≡ false
      → elim o [ none ↦ false | some x ↦ O.connected (record a { world = K.close a.world fd }) x ]
        ≡ false
  connected-closed none a fd h = refl
  connected-closed (some x) a fd h = SC.closes x a fd h

  close_socket-Runs :
      (before r : Running W)
      → IsReady watched r.epoll.state
      → r.client.fd ≡ before.client.fd
      → connected O r.client (alarms r) ≡ false
      → Runs
          (λ r'.
            IsReady watched r'.epoll.state
            × (connected O r'.client (alarms r') ≡ false)
            × (ltb_ℤ (negsuc 0) r'.client.fd ≡ false)
            × (ltb_ℤ (negsuc 0) before.client.fd ≡ true
                → callback_of (lookup (pos_part before.client.fd) r'.epoll.state.cb_map) ≡ none))
          (close_socket O K C r)
  unfolding obey connected
  close_socket-Runs before r v same off =
      Runs-if _ (ltb_ℤ (negsuc 0) r.client.fd) _ (some r)
        (λ opened.
          let fd = pos_part r.client.fd in
          let (e, run, v') = obey-IsReady watched C PL PK (unregister fd) r.epoll.state v in
          let none_there =
            unregister_fd-callback C.poll fd r.epoll.state e v.descriptors.distinct run in
          let off' = connected-obeyed fd r.client.session e r.epoll.state off run in
          let w = K.close e.world.world r.client.fd in
          let v'' =
            in_world-IsReady watched w e
              (L.close_keeps e.world.world r.client.fd (unwatched fd e v' none_there)) v' in
          (
            _,
            ap
                (λ o. o >>= λ e.
                  some (record (with_state (in_world (K.close e.world.world r.client.fd) e) r) {
                    client = record r.client { fd = negsuc 0 };
                  }))
                run,
            (
              v'',
              connected-closed r.client.session e.world r.client.fd off',
              refl,
              λ h. subst (λ x. callback_of (lookup (pos_part x) e.cb_map) ≡ none) same none_there,
            ),
          ))
        (λ shut. (r, refl, (v, off, shut, λ h. absurd (ground (arith, shut, h, same)))))

  -- The client after a change of the alarms that its calls of the library make.
  abbrev Offline : EpollServer (Alarms W) → Option ℕ → Alarms W → Type 0
  Offline e o a =
      IsReady watched (record e { world = a })
      × (elim o [ none ↦ false | some x ↦ O.connected a x ] ≡ false)

  on_object-Offline :
      (e : EpollServer (Alarms W)) (o : Option ℕ)
      → IsReady watched e
      → Offline e o (on_object (λ a x. O.send_connection_close a x O.peer_going_away) o e.world)
  on_object-Offline e none v = (v, refl)
  on_object-Offline e (some x) v = (
    with_alarms-IsReady watched _ e v (OL.closing e.world x O.peer_going_away v.alarms),
    OL.closed e.world x O.peer_going_away,
  )

  closed-Offline :
      (r : Running W)
      → IsReady watched r.epoll.state
      → Offline r.epoll.state r.client.session (alarms (after_close O r))
  unfolding connected
  closed-Offline r v =
      either_branch (Offline r.epoll.state r.client.session) (connected O r.client (alarms r)) _
        (alarms r) (λ on. on_object-Offline r.epoll.state r.client.session v) (λ off. (v, off))

  -- `Disconnect` returns from an epoll server at rest, and leaves it at rest. In the end the client is not
  -- connected, has no socket and is not initialized, and no callback is registered for the socket it had.
  pub disconnect-Disconnected :
      (r : Running W)
      → IsReady watched r.epoll.state
      → Runs (Disconnected watched O r) (disconnect O K C r)
  unfolding disconnect connected
  disconnect-Disconnected r v =
      let (v', off) = closed-Offline r v in
      Runs->>= _ _ _ _ (close_socket-Runs r (after_close O r) v' refl off)
        (λ r' (ready, offline, shut, none_there). (
          _,
          refl,
          record {
            ready = ready;
            offline = offline;
            socket = shut;
            initialized = refl;
            unwatched = none_there;
          },
        ))
