-- ===== src/Dispatcher/Closing/Blocking.antt =====
-- quic_dispatcher.cc: the write-blocked list while the library runs.
use cmuquic.Prelude.{
  ℕ, ◌≤◌, ◌≡◌, refl, Bool, true, false, ◌&&◌, not, arith, ◌⊎◌, inl, inr, Option-cases, Runs,
  Runs->>=, length,
}
use cmuquic.Prelude.Assoc.{lookup}
use cmuquic.Blocked.{connection, on_write_blocked}
use cmuquic.Blocked.Laws.{length-remove-le}
use cmuquic.Library.{Session, Reaction, done, calls, Callback, connection_closed, session_blocked}
use cmuquic.Dispatcher.Data.{Dispatcher, Host, world, with_world}
use cmuquic.Dispatcher.Invariant.{IsValid, Laws}
use cmuquic.Dispatcher.Closing.{
  retire, on_connection_closed, closed_world, session_on_connection_closed,
  session_on_write_blocked, on_callback, react,
}
use cmuquic.Dispatcher.Closing.Callbacks.{
  cleaned, clean_up_session-eq, cleaned-IsValid, session_on_write_blocked-IsValid,
}

module _ {Time Delta W : Type 0} (H : Host Time Delta W) where
  -- What was blocked at `w` is blocked at `w'`.
  abbrev pub StillBlocked : W → W → Type 0
  StillBlocked w w' =
      (H.env.writer.is_write_blocked w && not (H.env.writer.is_write_blocked w')) ≡ false

  -- No call of the library unblocks the packet writer: only the dispatcher does, by `SetWritable`.
  pub record BlockingLaws : Type 0 where
    pub closed_keeps :
        (w : W) (a e : ℕ) (f : Bool) → StillBlocked w (H.library.session_connection_closed w a e f)
    pub cancel_keeps : (w : W) (a : ℕ) → StillBlocked w (H.library.cancel_outstanding_callbacks w a)
    pub blocked_keeps : (w : W) (a : ℕ) → StillBlocked w (H.library.session_write_blocked w a)
    pub release_keeps :
        (w : W) (a : ℕ) → StillBlocked w (H.library.release_connection_close_packet w a).0

  -- The same of a reaction, from a world on.
  abbrev pub NeverUnblocks : W → Reaction W → Type 0
  NeverUnblocks w (done w') = StillBlocked w w'
  NeverUnblocks w (calls c w' next) =
      StillBlocked w w' × ((after : W) → NeverUnblocks after (next after))

  -- What a step does to the write-blocked list: unless the writer is blocked in the end, it was not
  -- blocked before either, and no more writers wait than before.
  pub record Settles (w : W) (n : ℕ) (w' : W) (n' : ℕ) : Type 0 where
    pub keeps : StillBlocked w w'
    pub fewer : (H.env.writer.is_write_blocked w' ≡ true) ⊎ (n' ≤ n)

  pub Settles-trans :
      (w : W) (n : ℕ) (w' : W) (n' : ℕ) (w'' : W) (n'' : ℕ)
      → Settles w n w' n'
      → Settles w' n' w'' n''
      → Settles w n w'' n''
  Settles-trans w n w' n' w'' n'' p q = ground arith

  abbrev pub waiting : Dispatcher Time Delta W → ℕ
  waiting d = length d.channel.write_blocked_list

  abbrev pub StepSettles : Dispatcher Time Delta W → Dispatcher Time Delta W → Type 0
  StepSettles d d' = Settles (world d) (waiting d) (world d') (waiting d')

module _ {Time Delta W : Type 0} (k : ℕ) (H : Host Time Delta W) (L : Laws k H)
    (B : BlockingLaws H) where
  abbrev pub Settled : Dispatcher Time Delta W → Dispatcher Time Delta W → Type 0
  Settled d d' = IsValid k d' × StepSettles H d d'

  cleaned-StepSettles :
      (id : ℕ) (s : Session) (d : Dispatcher Time Delta W) → StepSettles H d (cleaned k H L id s d)
  cleaned-StepSettles id s d = record {
    keeps = B.release_keeps (world d) s.address;
    fewer = inr (length-remove-le (connection s.address) d.channel.write_blocked_list);
  }

  on_connection_closed-Settled :
      (id error_code : ℕ) (d : Dispatcher Time Delta W)
      → IsValid k d
      → Runs (Settled d) (on_connection_closed H id error_code d)
  unfolding on_connection_closed retire
  on_connection_closed-Settled id error_code d v = elim (Option-cases (lookup id d.session_map)) [
    | inl missing ↦
        rw (missing, on_connection_closed)
          (d, refl, (v, record { keeps = ground arith; fewer = inr (omega arith) }))
    | inr (s, found) ↦
        let d' = retire H s d in
        rw (found, on_connection_closed)
          (
            cleaned k H L id s d',
            clean_up_session-eq k H L id s d',
            (cleaned-IsValid k H L id s d' v, cleaned-StepSettles id s d'),
          )
  ]

  session_on_write_blocked-StepSettles :
      (s : Session) (d : Dispatcher Time Delta W) → StepSettles H d (session_on_write_blocked H s d)
  unfolding session_on_write_blocked on_write_blocked
  session_on_write_blocked-StepSettles s d = ground (arith, B.blocked_keeps (world d) s.address)

  closed_world-StepSettles :
      (s : Session) (error_code : ℕ) (from_peer : Bool) (d : Dispatcher Time Delta W)
      → StepSettles H d (with_world (closed_world H s error_code from_peer (world d)) d)
  unfolding closed_world
  closed_world-StepSettles s error_code from_peer d =
      let w = H.library.session_connection_closed (world d) s.address error_code from_peer in
      ground
        (arith, B.closed_keeps (world d) s.address error_code from_peer, B.cancel_keeps w s.address)

  on_callback-Settled :
      (c : Callback) (d : Dispatcher Time Delta W)
      → IsValid k d
      → Runs (Settled d) (on_callback H c d)
  unfolding on_callback session_on_connection_closed
  on_callback-Settled (connection_closed s error_code from_peer) d v =
      let d' = with_world (closed_world H s error_code from_peer (world d)) d in
      let (d'', e, (v', t)) = on_connection_closed-Settled s.connection_id error_code d' v in
      (
        d'',
        e,
        (
          v',
          Settles-trans H (world d) (waiting H d) (world d') (waiting H d') (world d'')
              (waiting H d'') (closed_world-StepSettles s error_code from_peer d) t,
        ),
      )
  on_callback-Settled (session_blocked s) d v = (
    session_on_write_blocked H s d,
    refl,
    (session_on_write_blocked-IsValid k H L s d v, session_on_write_blocked-StepSettles s d),
  )

  -- A call of the library that never unblocks the packet writer ends from a valid dispatcher, leaves
  -- it valid, and no more writers wait than before unless the packet writer is blocked.
  pub react-Settled :
      (r : Reaction W) (d : Dispatcher Time Delta W)
      → NeverUnblocks H (world d) r
      → IsValid k d
      → Runs (Settled d) (react H r d)
  unfolding react
  react-Settled (done w) d n v =
      (with_world w d, refl, (v, record { keeps = n; fewer = inr (omega arith) }))
  react-Settled (calls c w next) d n v =
      let d1 = with_world w d in
      Runs->>= (Settled d1) (Settled d) (on_callback H c d1) _ (on_callback-Settled c d1 v) (λ d2 p.
        let (d3, e, (v3, t)) = react-Settled (next (world d2)) d2 (n.1 (world d2)) p.0 in
        (
          d3,
          e,
          (
            v3,
            Settles-trans H (world d) (waiting H d) (world d1) (waiting H d1) (world d3)
                (waiting H d3) (record { keeps = n.0; fewer = inr (omega arith) })
                (Settles-trans H (world d1) (waiting H d1) (world d2) (waiting H d2) (world d3)
                  (waiting H d3) p.1 t),
          ),
        ))
