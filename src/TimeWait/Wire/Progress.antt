-- ===== src/TimeWait/Wire/Progress.antt =====
-- quic_time_wait_list_manager.cc: sending does not unblock the socket, and adds no waiting writer
-- unless the socket is blocked.
use cmuquic.Prelude.{◌≤◌, ◌≡◌, true, false, ◌&&◌, not, List, [], ◌∷◌, arith, ◌⊎◌, length}
use cmuquic.Blocked.{Channel, on_write_blocked}
use cmuquic.TimeWait.Data.{Env, QueuedPacket}
use cmuquic.TimeWait.Wire.{write_to_wire, flush}

module _ {Time Delta W : Type 0} (E : Env Time Delta W) where
  pub record SendSettles (c c' : Channel W) : Type 0 where
    pub keeps :
        (E.writer.is_write_blocked c.world && not (E.writer.is_write_blocked c'.world)) ≡ false
    pub fewer :
        (E.writer.is_write_blocked c'.world ≡ true)
        ⊎ (length c'.write_blocked_list ≤ length c.write_blocked_list)

  write_to_wire-SendSettles :
      (q : QueuedPacket) (c : Channel W) → SendSettles c (write_to_wire E q c).0
  unfolding write_to_wire on_write_blocked
  write_to_wire-SendSettles q c = ground arith

  pub flush-SendSettles : (qs : List QueuedPacket) (c : Channel W) → SendSettles c (flush E qs c).1
  unfolding flush
  flush-SendSettles [] c = ground arith
  flush-SendSettles (q ∷ qs) c =
      ground (arith, write_to_wire-SendSettles q c, flush-SendSettles qs (write_to_wire E q c).0)
