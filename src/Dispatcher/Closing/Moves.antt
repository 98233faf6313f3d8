-- ===== src/Dispatcher/Closing/Moves.antt =====
-- quic_dispatcher.cc: what `OnConnectionClosed` does to a session of the map.
use cmuquic.Prelude.{ℕ, ◌≡◌, refl, false, some, [], ◌∷◌, ◌++◌, arith, is_empty, Runs, if◌then◌else◌}
use cmuquic.Prelude.Assoc.{lookup, erase}
use cmuquic.Blocked.{connection, member}
use cmuquic.Blocked.Laws.{member-remove, same_refl}
use cmuquic.TimeWait.Data.{ConnectionIdData}
use cmuquic.TimeWait.Expiry.Members.{lookup-added_map}
use cmuquic.Library.{Session}
use cmuquic.Dispatcher.Data.{Dispatcher, Host, world}
use cmuquic.Dispatcher.Invariant.{IsValid, Laws}
use cmuquic.Dispatcher.Closing.{retire, on_connection_closed}
use cmuquic.Dispatcher.Closing.Callbacks.{cleaned, clean_up_session-eq}

module _ {Time Delta W : Type 0} (k : ℕ) (H : Host Time Delta W) (L : Laws k H) where
  -- How the dispatcher differs once the session `s` of an id is closed.
  pub record Moved (id : ℕ) (s : Session) (d d' : Dispatcher Time Delta W) : Type 0 where
    pub sessions : d'.session_map ≡ erase id d.session_map
    pub closed : d'.closed_session_list ≡ d.closed_session_list ++ s ∷ []
    pub alarm : d'.delete_sessions_alarm ≡ (
        if is_empty d.closed_session_list
        then some (H.env.now (world d))
        else d.delete_sessions_alarm)
    pub waiting : member (connection s.address) d'.channel.write_blocked_list ≡ false
    pub recorded :
        (kept : ConnectionIdData Time) × (lookup id d'.time_wait.connection_id_map ≡ some kept)
        × (kept.version ≡ H.library.connection_version (world d') s.address)
        × (kept.close_packet ≡ (H.library.release_connection_close_packet (world d) s.address).1)
        × (kept.time_added ≡ H.env.now (world d'))

  -- When a connection of the session map is closed, its session is taken out of the map and goes to
  -- the end of the closed sessions, the alarm to delete them is set if there were none, the connection does
  -- not wait to write any more, and the id is in the time-wait list with the version and the
  -- close packet of the connection.
  pub on_connection_closed-Moved :
      (id error_code : ℕ) (s : Session) (d : Dispatcher Time Delta W)
      → IsValid k d
      → lookup id d.session_map ≡ some s
      → Runs (Moved id s d) (on_connection_closed H id error_code d)
  unfolding on_connection_closed retire
  on_connection_closed-Moved id error_code s d v found =
      let d' = retire H s d in
      let b = connection s.address in
      rw (found, on_connection_closed)
        (
          cleaned k H L id s d',
          clean_up_session-eq k H L id s d',
          record {
            sessions = refl;
            closed = refl;
            alarm = refl;
            waiting =
                ground
                  (arith, member-remove b b d.channel.write_blocked_list v.unique, same_refl b);
            recorded = (
              _,
              lookup-added_map H.env k _ id _ _ d.time_wait v.bounded.distinct,
              refl,
              refl,
              refl,
            );
          },
        )
