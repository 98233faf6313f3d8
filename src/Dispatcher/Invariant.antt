-- ===== src/Dispatcher/Invariant.antt =====
-- What every operation of quic_dispatcher.cc keeps.
use cmuquic.Prelude.{ℕ, suc, ◌≡◌, true, false, ◌&&◌, List, [], ◌⊎◌, is_empty, All}
use cmuquic.Prelude.Assoc.{contains, IsDistinct}
use cmuquic.Prelude.Int.{pos}
use cmuquic.Net.{PacketWriterLaws, TimeLaws}
use cmuquic.Blocked.{BlockedWriter, time_wait_manager, member}
use cmuquic.Blocked.Laws.{IsUnique}
use cmuquic.TimeWait.Data.{TimeWait}
use cmuquic.TimeWait.Expiry.Members.{IsBounded}
use cmuquic.Library.{Session}
use cmuquic.Dispatcher.Data.{Dispatcher, Host}

-- Sessions and time-wait ids over a maximum of k + 1 ids in the time-wait list.
pub record Valid {Time Delta : Type 0} (k : ℕ) (sessions : List (ℕ × Session))
    (tw : TimeWait Time Delta) (waiting : List BlockedWriter) (versions : List ℕ) : Type 0 where
  -- One session for an id, under its own id.
  pub distinct : IsDistinct sessions
  pub keyed : All (λ e. e.1.connection_id ≡ e.0) sessions
  -- The time-wait ids are distinct and within the maximum.
  pub bounded : IsBounded k tw
  -- No id has a session and is in the time-wait list.
  pub apart : (q : ℕ) → (contains q sessions && contains q tw.connection_id_map) ≡ false
  -- No writer waits twice; the manager waits if it has packets to send.
  pub unique : IsUnique waiting
  pub queued : (tw.pending_packets_queue ≡ []) ⊎ (member time_wait_manager waiting ≡ true)
  -- Some version is supported.
  pub supports : is_empty versions ≡ false

abbrev pub IsValid : {Time Delta W : Type 0} → ℕ → Dispatcher Time Delta W → Type 0
IsValid k d = Valid k d.session_map d.time_wait d.channel.write_blocked_list d.supported_versions

-- What the dispatcher relies on of its surroundings.
pub record Laws {Time Delta W : Type 0} (k : ℕ) (H : Host Time Delta W) : Type 0 where
  pub time : TimeLaws H.env.time
  pub writer : PacketWriterLaws H.env.writer
  pub maximum : H.env.max_connections ≡ pos (suc k)
