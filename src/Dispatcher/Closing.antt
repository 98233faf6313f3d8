-- ===== src/Dispatcher/Closing.antt =====
-- quic_dispatcher.cc and quic_server_session.cc: how a session ends, and the callbacks of the library.
-- `none` is a run that does not go on, as in the time-wait list.
pub mod Callbacks
pub mod Blocking
pub mod Sessions
pub mod Moves
use cmuquic.Prelude.{
  ℕ, zero, suc, ◌≡◌, Bool, true, false, not, Option, none, some, List, [], ◌∷◌, ◌++◌, if◌then◌else◌,
  is_empty, ◌>>=◌,
}
use cmuquic.Prelude.Assoc.{lookup, erase}
use cmuquic.Net.{Packet, IpEndPoint}
use cmuquic.Blocked.{BlockedWriter, connection, remove, Channel, on_write_blocked}
use cmuquic.TimeWait.Data.{Env, TimeWait}
use cmuquic.TimeWait.Expiry.{add_connection_id_to_time_wait}
use cmuquic.Library.{
  Library, Session, Callback, connection_closed, session_blocked, Reaction, done, calls,
}
use cmuquic.Dispatcher.Data.{Dispatcher, Host, world, with_world}

module _ {Time Delta W : Type 0} (H : Host Time Delta W) where
  -- `CleanUpSession`, for the entry of an id.
  unfoldable pub clean_up_session :
      ℕ → Session → Dispatcher Time Delta W → Option (Dispatcher Time Delta W)
  clean_up_session id s d = do
    let (w, close) = H.library.release_connection_close_packet (world d) s.address
    let version = H.library.connection_version w s.address
    tw ← add_connection_id_to_time_wait H.env w id version close d.time_wait
    some (record d {
      channel = record {
        world = w;
        write_blocked_list = remove (connection s.address) d.channel.write_blocked_list;
      };
      time_wait = tw;
      session_map = erase id d.session_map;
    })

  -- The alarm of `OnConnectionClosed`, and the closed session at the end of its list.
  unfoldable pub retire : Session → Dispatcher Time Delta W → Dispatcher Time Delta W
  retire s d = record d {
    delete_sessions_alarm =
        if is_empty d.closed_session_list
        then some (H.env.now (world d))
        else d.delete_sessions_alarm;
    closed_session_list = d.closed_session_list ++ s ∷ [];
  }

  -- `QuicDispatcher::OnConnectionClosed`. The error is only logged.
  unfoldable pub on_connection_closed :
      ℕ → ℕ → Dispatcher Time Delta W → Option (Dispatcher Time Delta W)
  on_connection_closed id error_code d = elim (lookup id d.session_map) [
    | none ↦ some d
    | some s ↦ clean_up_session id s (retire s d)
  ]

  -- The calls of the library in `QuicServerSession::OnConnectionClosed`.
  unfoldable pub closed_world : Session → ℕ → Bool → W → W
  closed_world s error_code from_peer w =
      let w' = H.library.session_connection_closed w s.address error_code from_peer in
      if s.has_crypto_stream then H.library.cancel_outstanding_callbacks w' s.address else w'

  -- `QuicServerSession::OnConnectionClosed`.
  unfoldable pub session_on_connection_closed :
      Session → ℕ → Bool → Dispatcher Time Delta W → Option (Dispatcher Time Delta W)
  session_on_connection_closed s error_code from_peer d =
      on_connection_closed s.connection_id error_code
        (with_world (closed_world s error_code from_peer (world d)) d)

  -- `QuicServerSession::OnWriteBlocked`, which ends in `QuicDispatcher::OnWriteBlocked`.
  unfoldable pub session_on_write_blocked :
      Session → Dispatcher Time Delta W → Dispatcher Time Delta W
  session_on_write_blocked s d =
      let d' = with_world (H.library.session_write_blocked (world d) s.address) d in
      record d' { channel = on_write_blocked H.env.writer (connection s.address) d'.channel }

  unfoldable pub on_callback : Callback → Dispatcher Time Delta W → Option (Dispatcher Time Delta W)
  on_callback (connection_closed s error_code from_peer) d =
      session_on_connection_closed s error_code from_peer d
  on_callback (session_blocked s) d = some (session_on_write_blocked s d)

  -- A call of the library, with its callbacks.
  unfoldable pub react : Reaction W → Dispatcher Time Delta W → Option (Dispatcher Time Delta W)
  react (done w) d = some (with_world w d)
  react (calls callback w next) d =
      on_callback callback (with_world w d) >>= λ d'. react (next (world d')) d'

  -- The destructors of a list of sessions.
  unfoldable pub delete_all : List Session → W → W
  delete_all [] w = w
  delete_all (s ∷ ss) w = delete_all ss (H.library.delete_session w s.address)

  -- `DeleteSessions`.
  unfoldable pub delete_sessions : Dispatcher Time Delta W → Dispatcher Time Delta W
  delete_sessions d =
      let d' = with_world (delete_all d.closed_session_list (world d)) d in
      record d' { closed_session_list = [] }

  -- `DeleteSessionsAlarm::OnAlarm`: the alarm fires, and is not set again.
  unfoldable pub on_delete_sessions_alarm : Dispatcher Time Delta W → Dispatcher Time Delta W
  on_delete_sessions_alarm d = delete_sessions (record d { delete_sessions_alarm = none })
