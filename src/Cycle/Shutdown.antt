-- ===== src/Cycle/Shutdown.antt =====
-- epoll_server.cc: the destructor of the server. The callbacks of descriptors that it tells do not call it
-- back, and an alarm does what `EpollAlarm::OnShutdown` does.
pub mod Released
use cmuquic.Prelude.{ℕ, Option, none, some, List, [], ◌∷◌}
use cmuquic.Epoll.Data.{Entry, EpollServer}
use cmuquic.Alarms.Data.{Timer, EpollAlarm, on_shutdown, Alarms}
use cmuquic.Alarms.Registry.{set_object}

module _ {W : Type 0} (on_fd_shutdown : W → ℕ → ℕ → W) where
  abbrev pub tell : Option ℕ → ℕ → W → W
  tell none fd w = w
  tell (some cb) fd w = on_fd_shutdown w cb fd

  -- The loop of `CleanupFDToCBMap`: each entry's callback is told, and the entry goes.
  abbrev pub cleanup_fds : List (ℕ × Entry) → W → W
  cleanup_fds [] w = w
  cleanup_fds ((fd, n) ∷ m) w = cleanup_fds m (tell n.cb fd w)

  -- `CleanupFDToCBMap`.
  unfoldable pub cleanup_fd_to_cb_map : EpollServer W → EpollServer W
  cleanup_fd_to_cb_map s = record s { world = cleanup_fds s.cb_map s.world; cb_map = [] }

-- The loop of `CleanupTimeToAlarmCBMap`.
abbrev pub cleanup_alarms : List (ℕ × Timer) → (ℕ → EpollAlarm) → ℕ → EpollAlarm
cleanup_alarms [] objects = objects
cleanup_alarms ((q, t) ∷ m) objects =
    cleanup_alarms m (set_object t.cb (on_shutdown (objects t.cb)) objects)

-- `CleanupTimeToAlarmCBMap`.
unfoldable pub cleanup_time_to_alarm_cb_map : {W : Type 0} → Alarms W → Alarms W
cleanup_time_to_alarm_cb_map s = record s {
  alarm_map = [];
  objects = cleanup_alarms s.alarm_map s.objects;
}

module _ {W : Type 0} (on_fd_shutdown : Alarms W → ℕ → ℕ → Alarms W) (close : W → W) where
  -- The destructor: descriptors, lists, alarms, and then the descriptor of epoll.
  unfoldable pub destroy : EpollServer (Alarms W) → EpollServer (Alarms W)
  destroy s =
      let s1 = cleanup_fd_to_cb_map on_fd_shutdown s in
      let a = cleanup_time_to_alarm_cb_map s1.world in
      record s1 { ready_list = []; tmp_list = []; world = record a { world = close a.world } }
