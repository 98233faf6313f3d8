-- ===== src/Dispatcher/Closing/Callbacks.antt =====
-- quic_dispatcher.cc and quic_server_session.cc: closing a session, and the callbacks of the library.
use cmuquic.Prelude.{
  ℕ, ◌≡◌, refl, Option, some, List, arith, inl, inr, Option-cases, Runs, Runs->>=,
}
use cmuquic.Prelude.Assoc.{
  lookup, erase, erase-IsDistinct, contains-erase_self, contains-erase_ne, All-erase,
}
use cmuquic.Net.{Packet}
use cmuquic.Blocked.{BlockedWriter, time_wait_manager, connection, remove}
use cmuquic.Blocked.Laws.{
  member-remove, remove-IsUnique, member-on_write_blocked, on_write_blocked-IsUnique,
}
use cmuquic.TimeWait.Data.{TimeWait}
use cmuquic.TimeWait.Expiry.Trim.{added_map, add_connection_id_to_time_wait-eq}
use cmuquic.TimeWait.Expiry.Members.{added_map-IsDistinct, length-added_map, contains-added_map}
use cmuquic.Library.{Session, Reaction, done, calls, Callback, connection_closed, session_blocked}
use cmuquic.Dispatcher.Data.{Dispatcher, Host, world, with_world}
use cmuquic.Dispatcher.Invariant.{Valid, IsValid, Laws}
use cmuquic.Dispatcher.Closing.{
  clean_up_session, retire, on_connection_closed, session_on_connection_closed,
  session_on_write_blocked, on_callback, react,
}

module _ {Time Delta W : Type 0} (k : ℕ) (H : Host Time Delta W) (L : Laws k H) where
  -- Where an id goes from the sessions to the time-wait list.
  abbrev pub moved : W → ℕ → ℕ → Option Packet → TimeWait Time Delta → TimeWait Time Delta
  moved w id version close tw = record tw {
    connection_id_map = added_map H.env k w id version close tw;
  }

  moved-Valid :
      (w : W) (id version : ℕ) (close : Option Packet) (sessions : List (ℕ × Session))
      (tw : TimeWait Time Delta) (waiting : List BlockedWriter) (versions : List ℕ)
      → Valid k sessions tw waiting versions
      → Valid k (erase id sessions) (moved w id version close tw) waiting versions
  moved-Valid w id version close sessions tw waiting versions v = record {
    distinct = erase-IsDistinct id sessions v.distinct;
    keyed = All-erase _ id sessions v.keyed;
    bounded = record {
      distinct = added_map-IsDistinct H.env k w id version close tw v.bounded.distinct;
      within = length-added_map H.env k w id version close tw;
    };
    apart = λ q. ground (
      arith,
      v.apart q,
      contains-erase_self id sessions v.distinct,
      contains-erase_ne id q sessions,
      contains-added_map H.env k w id version close tw q,
    );
    unique = v.unique;
    queued = v.queued;
    supports = v.supports;
  }

  waiting-Valid :
      (s : ℕ) (sessions : List (ℕ × Session)) (tw : TimeWait Time Delta)
      (waiting : List BlockedWriter) (versions : List ℕ)
      → Valid k sessions tw waiting versions
      → Valid k sessions tw (remove (connection s) waiting) versions
  waiting-Valid s sessions tw waiting versions v = record {
    distinct = v.distinct;
    keyed = v.keyed;
    bounded = v.bounded;
    apart = v.apart;
    unique = remove-IsUnique (connection s) waiting v.unique;
    queued =
        ground (arith, v.queued, member-remove time_wait_manager (connection s) waiting v.unique);
    supports = v.supports;
  }

  -- The dispatcher once the session of an id is cleaned up.
  abbrev pub cleaned : ℕ → Session → Dispatcher Time Delta W → Dispatcher Time Delta W
  cleaned id s d =
      let (w, close) = H.library.release_connection_close_packet (world d) s.address in
      record d {
        channel = record {
          world = w;
          write_blocked_list = remove (connection s.address) d.channel.write_blocked_list;
        };
        time_wait = moved w id (H.library.connection_version w s.address) close d.time_wait;
        session_map = erase id d.session_map;
      }

  pub clean_up_session-eq :
      (id : ℕ) (s : Session) (d : Dispatcher Time Delta W)
      → clean_up_session H id s d ≡ some (cleaned id s d)
  unfolding clean_up_session
  clean_up_session-eq id s d =
      let (w, close) = H.library.release_connection_close_packet (world d) s.address in
      rw (
        add_connection_id_to_time_wait-eq H.env L.time k w id
          (H.library.connection_version w s.address) close d.time_wait L.maximum)

  pub cleaned-IsValid :
      (id : ℕ) (s : Session) (d : Dispatcher Time Delta W)
      → IsValid k d
      → IsValid k (cleaned id s d)
  cleaned-IsValid id s d v =
      waiting-Valid s.address _ _ d.channel.write_blocked_list _
        (moved-Valid _ id _ _ d.session_map d.time_wait _ _ v)

  pub on_connection_closed-Runs :
      (id error_code : ℕ) (d : Dispatcher Time Delta W)
      → IsValid k d
      → Runs (IsValid k) (on_connection_closed H id error_code d)
  unfolding on_connection_closed retire
  on_connection_closed-Runs id error_code d v = elim (Option-cases (lookup id d.session_map)) [
    | inl missing ↦ rw (missing, on_connection_closed) (d, refl, v)
    | inr (s, found) ↦
        rw (found, on_connection_closed)
          (
            cleaned id s (retire H s d),
            clean_up_session-eq id s (retire H s d),
            cleaned-IsValid id s (retire H s d) v,
          )
  ]

  pub session_on_write_blocked-IsValid :
      (s : Session) (d : Dispatcher Time Delta W)
      → IsValid k d
      → IsValid k (session_on_write_blocked H s d)
  unfolding session_on_write_blocked
  session_on_write_blocked-IsValid s d v =
      let w = H.library.session_write_blocked (world d) s.address in
      let c = (with_world w d).channel in
      record {
        distinct = v.distinct;
        keyed = v.keyed;
        bounded = v.bounded;
        apart = v.apart;
        unique = on_write_blocked-IsUnique H.env.writer (connection s.address) c v.unique;
        queued = ground (
          arith,
          v.queued,
          member-on_write_blocked H.env.writer time_wait_manager (connection s.address) c,
        );
        supports = v.supports;
      }

  pub on_callback-Runs :
      (c : Callback) (d : Dispatcher Time Delta W)
      → IsValid k d
      → Runs (IsValid k) (on_callback H c d)
  unfolding on_callback session_on_connection_closed
  on_callback-Runs (connection_closed s error_code from_peer) d v =
      on_connection_closed-Runs s.connection_id error_code _ v
  on_callback-Runs (session_blocked s) d v =
      (session_on_write_blocked H s d, refl, session_on_write_blocked-IsValid s d v)

  -- Whatever the library does in a call, the callbacks end, and a valid dispatcher stays valid.
  pub react-Runs :
      (r : Reaction W) (d : Dispatcher Time Delta W) → IsValid k d → Runs (IsValid k) (react H r d)
  unfolding react
  react-Runs (done w) d v = (with_world w d, refl, v)
  react-Runs (calls c w next) d v =
      Runs->>= (IsValid k) (IsValid k) (on_callback H c (with_world w d)) _
        (on_callback-Runs c (with_world w d) v) (λ d' v'. react-Runs (next (world d')) d' v')
