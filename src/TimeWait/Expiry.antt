-- ===== src/TimeWait/Expiry.antt =====
-- quic_time_wait_list_manager.cc: how connection ids enter and leave the time-wait list.
-- `none` is a loop that never ends, or a DCHECK on a missing id that fails.
pub mod Trim
pub mod Members
pub mod CleanUp
use cmuquic.Prelude.{
  ℕ, zero, suc, ◌+◌, ◌-◌, ◌%◌, ◌^◌, bit_and, ◌≡◌, Bool, true, false, ◌&&◌, not, Option, none, some,
  List, [], ◌∷◌, ◌++◌, ◌==◌, ltb, leb, if◌then◌else◌, length, is_empty, ◌>>=◌,
}
use cmuquic.Prelude.Assoc.{lookup, contains, erase, assign}
use cmuquic.Prelude.Int.{ℤ, pos, ltb_ℤ, leb_ℤ}
use cmuquic.Net.{
  Packet, IpEndPoint, WriteStatus, WriteResult, write_ok, write_blocked, write_error, PacketWriter,
  TimeOps,
}
use cmuquic.TimeWait.Data.{
  Env, PublicResetPacket, ConnectionIdData, QueuedPacket, TimeWait, should_send_response,
  next_count,
}

-- The count that `AddConnectionIdToTimeWait` carries over.
abbrev pub carried_count : {Time : Type 0} → Option (ConnectionIdData Time) → ℕ
carried_count none = 0
carried_count (some d) = d.num_packets

module _ {Time Delta W : Type 0} (E : Env Time Delta W) where
  -- `SetConnectionIdCleanUpAlarm`, at a time `now` of the clock.
  unfoldable pub next_alarm_interval : Time → Delta → List (ℕ × ConnectionIdData Time) → Delta
  next_alarm_interval now period [] = period
  next_alarm_interval now period ((id, d) ∷ rest) =
      if E.time.delta_lt (E.time.subtract now d.time_added) period
      then E.time.subtract (E.time.add d.time_added period) now
      else E.time.delta_zero

  unfoldable pub set_connection_id_clean_up_alarm : Time → TimeWait Time Delta → TimeWait Time Delta
  set_connection_id_clean_up_alarm now m = record m {
    connection_id_clean_up_alarm =
        some (E.time.add now (next_alarm_interval now m.time_wait_period m.connection_id_map));
  }

  -- `MaybeExpireOldestConnection`, on the map.
  unfoldable pub maybe_expire_oldest :
      Time → List (ℕ × ConnectionIdData Time) → List (ℕ × ConnectionIdData Time) × Bool
  maybe_expire_oldest expiration [] = ([], false)
  maybe_expire_oldest expiration ((id, d) ∷ rest) =
      if E.time.time_gt d.time_added expiration then ((id, d) ∷ rest, false) else (rest, true)

  -- The loop of `CleanUpOldConnectionIds`, on fuel.
  unfoldable pub expire_loop :
      ℕ → Time → List (ℕ × ConnectionIdData Time) → Option (List (ℕ × ConnectionIdData Time))
  expire_loop zero expiration ids = none
  expire_loop (suc fuel) expiration ids =
      let (ids', expired) = maybe_expire_oldest expiration ids in
      let rest = expire_loop fuel expiration ids' in if expired then rest else some ids'

  -- `CleanUpOldConnectionIds`.
  unfoldable pub clean_up_old_connection_ids :
      W → TimeWait Time Delta → Option (TimeWait Time Delta)
  clean_up_old_connection_ids w m = do
    let expiration = E.time.subtract_delta (E.now w) m.time_wait_period
    ids ← expire_loop (suc (length m.connection_id_map)) expiration m.connection_id_map
    some (set_connection_id_clean_up_alarm (E.now w) (record m { connection_id_map = ids }))

  -- The loop of `TrimTimeWaitListIfNeeded`, on fuel.
  unfoldable pub trim_loop :
      ℕ → List (ℕ × ConnectionIdData Time) → Option (List (ℕ × ConnectionIdData Time))
  trim_loop zero ids = none
  trim_loop (suc fuel) ids =
      let rest = trim_loop fuel (maybe_expire_oldest E.time.infinite ids).0 in
      if leb_ℤ E.max_connections (pos (length ids)) then rest else some ids

  -- `TrimTimeWaitListIfNeeded`.
  unfoldable pub trim_time_wait_list_if_needed :
      List (ℕ × ConnectionIdData Time) → Option (List (ℕ × ConnectionIdData Time))
  trim_time_wait_list_if_needed ids =
      if ltb_ℤ E.max_connections (pos 0) then some ids else trim_loop (suc (length ids)) ids

  -- `AddConnectionIdToTimeWait`.
  unfoldable pub add_connection_id_to_time_wait :
      W → ℕ → ℕ → Option Packet → TimeWait Time Delta → Option (TimeWait Time Delta)
  add_connection_id_to_time_wait w id version close m = do
    let count = carried_count (lookup id m.connection_id_map)
    ids ← trim_time_wait_list_if_needed (erase id m.connection_id_map)
    let added : ConnectionIdData Time = record {
      num_packets = count;
      version = version;
      time_added = E.now w;
      close_packet = close;
    }
    some (record m { connection_id_map = ids ++ (id, added) ∷ [] })

  -- `IsConnectionIdInTimeWait`.
  unfoldable pub is_connection_id_in_time_wait : ℕ → TimeWait Time Delta → Bool
  is_connection_id_in_time_wait id m = contains id m.connection_id_map

  -- `GetQuicVersionFromConnectionId`.
  unfoldable pub get_quic_version_from_connection_id : ℕ → TimeWait Time Delta → Option ℕ
  get_quic_version_from_connection_id id m = do d ← lookup id m.connection_id_map; some d.version

  -- The constructor.
  unfoldable pub init : W → Delta → TimeWait Time Delta
  init w period = set_connection_id_clean_up_alarm (E.now w) (record {
    connection_id_map = [];
    pending_packets_queue = [];
    time_wait_period = period;
    connection_id_clean_up_alarm = none;
  })
