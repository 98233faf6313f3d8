-- ===== src/TimeWait/Expiry/CleanUp.antt =====
-- `CleanUpOldConnectionIds` and `SetConnectionIdCleanUpAlarm` of quic_time_wait_list_manager.cc.
use cmuquic.Prelude.{
  ℕ, zero, suc, ◌<◌, ◌≡◌, refl, true, false, some, List, [], ◌∷◌, arith, length, if◌then◌else◌, All,
}
use cmuquic.Net.{TimeOps, TimeLaws}
use cmuquic.TimeWait.Data.{Env, ConnectionIdData, TimeWait}
use cmuquic.TimeWait.Expiry.{
  maybe_expire_oldest, expire_loop, clean_up_old_connection_ids, next_alarm_interval,
  set_connection_id_clean_up_alarm,
}

module _ {Time Delta : Type 0} (T : TimeOps Time Delta) where
  -- Every entry is no older than those before it.
  abbrev pub NotBefore : Time → ℕ × ConnectionIdData Time → Type 0
  NotBefore t e = T.time_gt t e.1.time_added ≡ false

  abbrev pub IsChronological : List (ℕ × ConnectionIdData Time) → Type 0
  IsChronological [] = Unit {0}
  IsChronological ((id, d) ∷ rest) = All (NotBefore d.time_added) rest × IsChronological rest

  -- The entries that are younger than the period at a time, wherever they stand.
  pub live : Time → Delta → List (ℕ × ConnectionIdData Time) → List (ℕ × ConnectionIdData Time)
  live now period [] = []
  live now period ((id, d) ∷ rest) =
      if T.delta_lt (T.subtract now d.time_added) period
      then (id, d) ∷ live now period rest
      else live now period rest

  -- When the oldest entry has lived its period; with no entry, one period from now.
  abbrev pub deadline : Time → Delta → List (ℕ × ConnectionIdData Time) → Time
  deadline now period [] = T.add now period
  deadline now period ((id, d) ∷ rest) = T.add d.time_added period

module _ {Time Delta W : Type 0} (E : Env Time Delta W) (L : TimeLaws E.time) where
  -- Behind a live entry all are live.
  live-All :
      (now : Time) (period : Delta) (t : Time) (ids : List (ℕ × ConnectionIdData Time))
      → E.time.delta_lt (E.time.subtract now t) period ≡ true
      → All (NotBefore E.time t) ids
      → live E.time now period ids ≡ ids
  unfolding live
  live-All now period t [] h a = refl
  live-All now period t ((id, d) ∷ rest) h a = ground (
    arith,
    L.expiry t now period,
    L.expiry d.time_added now period,
    L.not_gt_trans t d.time_added (E.time.subtract_delta now period),
    live-All now period t rest h a.1,
  )

  expire_loop-live :
      (fuel : ℕ) (now : Time) (period : Delta) (ids : List (ℕ × ConnectionIdData Time))
      → IsChronological E.time ids
      → length ids < fuel
      → expire_loop E fuel (E.time.subtract_delta now period) ids
        ≡ some (live E.time now period ids)
  unfolding expire_loop maybe_expire_oldest live
  expire_loop-live zero now period ids c h = absurd (omega arith)
  expire_loop-live (suc fuel) now period [] c h = refl
  expire_loop-live (suc fuel) now period ((id, d) ∷ rest) c h = ground (
    arith,
    L.expiry d.time_added now period,
    live-All now period d.time_added rest,
    expire_loop-live fuel now period rest c.1 (omega arith),
  )

  -- The head of the live entries is live.
  next_alarm_interval-deadline :
      (now : Time) (period : Delta) (ids : List (ℕ × ConnectionIdData Time))
      → E.time.add now (next_alarm_interval E now period (live E.time now period ids))
        ≡ deadline E.time now period (live E.time now period ids)
  unfolding live next_alarm_interval
  next_alarm_interval-deadline now period [] = refl
  next_alarm_interval-deadline now period ((id, d) ∷ rest) = ground (
    arith,
    next_alarm_interval-deadline now period rest,
    L.add-subtract (E.time.add d.time_added period) now,
  )

  -- On a list in the order of time, the clean-up ends and keeps exactly the ids that are younger
  -- than the period, and sets the alarm for the moment at which the oldest of these has lived it.
  pub clean_up_old_connection_ids-live :
      (w : W) (m : TimeWait Time Delta)
      → IsChronological E.time m.connection_id_map
      → let ids = live E.time (E.now w) m.time_wait_period m.connection_id_map in
        clean_up_old_connection_ids E w m
        ≡ some (record m {
          connection_id_map = ids;
          connection_id_clean_up_alarm = some (deadline E.time (E.now w) m.time_wait_period ids);
        })
  unfolding clean_up_old_connection_ids set_connection_id_clean_up_alarm
  clean_up_old_connection_ids-live w m c = ground (
    arith,
    expire_loop-live (suc (length m.connection_id_map)) (E.now w) m.time_wait_period
        m.connection_id_map c (omega arith),
    next_alarm_interval-deadline (E.now w) m.time_wait_period m.connection_id_map,
  )
