-- ===== src/Blocked.antt =====
-- The write-blocked list of net/tools/quic/quic_dispatcher.{h,cc}: the writers that wait for the
-- socket, in the order of their arrival, beside the shared packet writer.
-- `linked_hash_map<QuicBlockedWriterInterface*, bool>` is the list of its keys.
pub mod Laws
use cmuquic.Prelude.{
  ℕ, ◌≡◌, Bool, true, false, List, [], ◌∷◌, ◌++◌, ◌==◌, if◌then◌else◌, is_empty, not,
}
use cmuquic.Net.{PacketWriter}

-- The objects that implement `QuicBlockedWriterInterface`: the time-wait list manager of the
-- dispatcher, and each connection, by its address.
pub data BlockedWriter : Type 0 where
  time_wait_manager : BlockedWriter
  connection : ℕ → BlockedWriter

abbrev pub same : BlockedWriter → BlockedWriter → Bool
same time_wait_manager time_wait_manager = true
same (connection a) (connection b) = a == b
same _ _ = false

unfoldable pub member : BlockedWriter → List BlockedWriter → Bool
member b [] = false
member b (x ∷ xs) = if same x b then true else member b xs

-- `insert` of the map: a key that is present stays where it is.
unfoldable pub insert : BlockedWriter → List BlockedWriter → List BlockedWriter
insert b [] = b ∷ []
insert b (x ∷ xs) = if same x b then x ∷ xs else x ∷ insert b xs

-- `erase` of the map.
unfoldable pub remove : BlockedWriter → List BlockedWriter → List BlockedWriter
remove b [] = []
remove b (x ∷ xs) = if same x b then xs else x ∷ remove b xs

-- What the dispatcher shares with its time-wait list manager: the world outside, which the packet
-- writer reads and writes, and the write-blocked list.
pub record Channel (W : Type 0) : Type 0 where
  pub world : W
  pub write_blocked_list : List BlockedWriter

module _ {W : Type 0} (P : PacketWriter W) where
  -- `QuicDispatcher::OnWriteBlocked`.
  unfoldable pub on_write_blocked : BlockedWriter → Channel W → Channel W
  on_write_blocked b c =
      if not (P.is_write_blocked c.world)
      then c
      else record c { write_blocked_list = insert b c.write_blocked_list }

-- `QuicDispatcher::HasPendingWrites`.
unfoldable pub has_pending_writes : {W : Type 0} → Channel W → Bool
has_pending_writes c = not (is_empty c.write_blocked_list)
