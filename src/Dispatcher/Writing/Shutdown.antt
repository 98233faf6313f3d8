-- ===== src/Dispatcher/Writing/Shutdown.antt =====
-- quic_dispatcher.cc: `Shutdown` ends.
use mathlib.Core.Path.{subst}
use cmuquic.Prelude.{
  ℕ, zero, suc, ◌<◌, ◌≡◌, refl, true, false, List, [], ◌∷◌, arith, Runs, Runs->>=, length,
}
use cmuquic.Prelude.Assoc.{contains}
use cmuquic.Library.{Session, Reaction}
use cmuquic.Dispatcher.Data.{Dispatcher, Host, world}
use cmuquic.Dispatcher.Invariant.{IsValid, Laws}
use cmuquic.Dispatcher.Closing.{delete_sessions}
use cmuquic.Dispatcher.Closing.Sessions.{Closes, Loses, react-Closes}
use cmuquic.Dispatcher.Writing.{shutdown_round, shutdown_loop, shutdown}

module _ {Time Delta W : Type 0} (k : ℕ) (H : Host Time Delta W) (L : Laws k H)
    (closes : (w : W) (s : Session)
      → Closes s.connection_id
          (H.library.send_connection_close w s H.library.peer_going_away)) where
  abbrev Emptied : Dispatcher Time Delta W → Type 0
  Emptied d' = IsValid k d' × (d'.session_map ≡ [])

  abbrev closing : Dispatcher Time Delta W → Session → Reaction W
  closing d s = H.library.send_connection_close (world d) s H.library.peer_going_away

  abbrev Ends : ℕ → Type 0
  Ends fuel =
      (d : Dispatcher Time Delta W)
      → IsValid k d
      → length d.session_map < fuel
      → Runs Emptied (shutdown_loop H fuel d)

  shutdown_round-Runs :
      (fuel : ℕ) (list : List (ℕ × Session)) (d : Dispatcher Time Delta W)
      → Ends fuel
      → d.session_map ≡ list
      → IsValid k d
      → length list < suc fuel
      → Runs Emptied (shutdown_round H (shutdown_loop H fuel) list d)
  unfolding contains
  shutdown_round-Runs fuel [] d ih e v h = (d, refl, (v, e))
  shutdown_round-Runs fuel ((id, s) ∷ rest) d ih e v h =
      let own : s.connection_id ≡ id = (rw e at v.keyed).0 in
      let here : contains id d.session_map ≡ true = rw e (ground arith) in
      let size : length d.session_map ≡ suc (length rest) = rw e refl in
      Runs->>= (λ d'. Loses k H L id d d' × (contains id d'.session_map ≡ false)) Emptied _ _
        (react-Closes k H L id (closing d s) d
          (subst (λ x. Closes x (closing d s)) own (closes (world d) s)) v)
        (λ d' (l, gone). ih d' l.valid (ground (arith, l.no_more)))

  shutdown_loop-Runs : (fuel : ℕ) → Ends fuel
  unfolding shutdown_loop
  shutdown_loop-Runs zero d v h = absurd (omega arith)
  shutdown_loop-Runs (suc fuel) d v h =
      shutdown_round-Runs fuel d.session_map d (shutdown_loop-Runs fuel) refl v h

  still : (d : Dispatcher Time Delta W) → IsValid k d → IsValid k (delete_sessions H d)
  unfolding delete_sessions
  still d v = record {
    distinct = v.distinct;
    keyed = v.keyed;
    bounded = v.bounded;
    apart = v.apart;
    unique = v.unique;
    queued = v.queued;
    supports = v.supports;
  }

  -- If the library, told to close a connection, calls back that it is closed, `Shutdown` ends: as
  -- many rounds as there are sessions are enough. It leaves the dispatcher valid, without open and
  -- without closed sessions.
  pub shutdown-Runs :
      (d : Dispatcher Time Delta W)
      → IsValid k d
      → Runs
          (λ d'. IsValid k d' × (d'.session_map ≡ []) × (d'.closed_session_list ≡ []))
          (shutdown H d)
  unfolding shutdown delete_sessions
  shutdown-Runs d v =
      Runs->>= Emptied _ (shutdown_loop H (suc (length d.session_map)) d) _
        (shutdown_loop-Runs (suc (length d.session_map)) d v (omega arith))
        (λ d' (v', e). (delete_sessions H d', refl, (still d' v', e, refl)))
