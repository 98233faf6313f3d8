-- ===== src/Dispatcher/Writing.antt =====
-- quic_dispatcher.cc: the blocked writers, and the shutdown.
pub mod Progress
pub mod Turns
pub mod Shutdown
use cmuquic.Prelude.{
  ℕ, zero, suc, ◌≡◌, Bool, true, false, not, Option, none, some, List, [], ◌∷◌, ◌++◌, if◌then◌else◌,
  is_empty, length, ◌>>=◌,
}
use cmuquic.Blocked.{BlockedWriter, time_wait_manager, connection, Channel}
use cmuquic.TimeWait.Wire
use cmuquic.Library.{Session}
use cmuquic.Dispatcher.Data.{Dispatcher, Host, world, with_world, without_first}
use cmuquic.Dispatcher.Closing.{react, delete_sessions}

module _ {Time Delta W : Type 0} (H : Host Time Delta W) where
  -- `OnCanWrite` of a blocked writer.
  unfoldable pub resume : BlockedWriter → Dispatcher Time Delta W → Option (Dispatcher Time Delta W)
  resume time_wait_manager d =
      let (tw, channel) = Wire.on_can_write H.env d.time_wait d.channel in
      some (record d { time_wait = tw; channel = channel })
  resume (connection address) d = react H (H.library.connection_on_can_write (world d) address) d

  -- One round of the loop of `OnCanWrite`; `rounds` is the rest of the loop.
  abbrev pub write_round :
      (Dispatcher Time Delta W → Option (Dispatcher Time Delta W))
      → List BlockedWriter
      → Dispatcher Time Delta W
      → Option (Dispatcher Time Delta W)
  write_round rounds [] d = some d
  write_round rounds (b ∷ rest) d =
      if H.env.writer.is_write_blocked (world d)
      then some d
      else resume b (without_first rest d) >>= rounds

  -- The loop of `OnCanWrite`, on fuel.
  unfoldable pub write_loop : ℕ → Dispatcher Time Delta W → Option (Dispatcher Time Delta W)
  write_loop zero d = none
  write_loop (suc fuel) d = write_round (write_loop fuel) d.channel.write_blocked_list d

  -- `QuicDispatcher::OnCanWrite`.
  unfoldable pub on_can_write : Dispatcher Time Delta W → Option (Dispatcher Time Delta W)
  on_can_write d =
      write_loop (suc (length d.channel.write_blocked_list))
        (with_world (H.env.writer.set_writable (world d)) d)

  -- One round of the loop of `Shutdown`.
  abbrev pub shutdown_round :
      (Dispatcher Time Delta W → Option (Dispatcher Time Delta W))
      → List (ℕ × Session)
      → Dispatcher Time Delta W
      → Option (Dispatcher Time Delta W)
  shutdown_round rounds [] d = some d
  shutdown_round rounds ((id, s) ∷ rest) d =
      react H (H.library.send_connection_close (world d) s H.library.peer_going_away) d >>= rounds

  -- The loop of `Shutdown`, on fuel.
  unfoldable pub shutdown_loop : ℕ → Dispatcher Time Delta W → Option (Dispatcher Time Delta W)
  shutdown_loop zero d = none
  shutdown_loop (suc fuel) d = shutdown_round (shutdown_loop fuel) d.session_map d

  -- `Shutdown`.
  unfoldable pub shutdown : Dispatcher Time Delta W → Option (Dispatcher Time Delta W)
  shutdown d = do d' ← shutdown_loop (suc (length d.session_map)) d; some (delete_sessions H d')
