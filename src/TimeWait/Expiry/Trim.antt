-- ===== src/TimeWait/Expiry/Trim.antt =====
-- `TrimTimeWaitListIfNeeded` and `AddConnectionIdToTimeWait` of quic_time_wait_list_manager.cc.
use native.Mathlib.Decide.{dec_le}
use cmuquic.Prelude.{
  ℕ, zero, suc, ◌-◌, ◌<◌, ◌≡◌, refl, Option, none, some, List, [], ◌∷◌, ◌++◌, arith, length, drop,
}
use cmuquic.Prelude.Assoc.{lookup, erase}
use cmuquic.Prelude.Int.{pos}
use cmuquic.Net.{Packet, TimeLaws}
use cmuquic.TimeWait.Data.{Env, ConnectionIdData, TimeWait}
use cmuquic.TimeWait.Expiry.{
  maybe_expire_oldest, trim_loop, trim_time_wait_list_if_needed, carried_count,
  add_connection_id_to_time_wait,
}

module _ {Time Delta W : Type 0} (E : Env Time Delta W) where
  -- The record that is added for an id.
  abbrev pub added_data : W → ℕ → ℕ → Option Packet → TimeWait Time Delta → ConnectionIdData Time
  added_data w id version close m = record {
    num_packets = carried_count (lookup id m.connection_id_map);
    version = version;
    time_added = E.now w;
    close_packet = close;
  }

  -- The map once an id is added: the other ids, the k newest of them, and the id at the end.
  abbrev pub added_map :
      ℕ → W → ℕ → ℕ → Option Packet → TimeWait Time Delta → List (ℕ × ConnectionIdData Time)
  added_map k w id version close m =
      let others = erase id m.connection_id_map in
      drop (length others - k) others ++ (id, added_data w id version close m) ∷ []

module _ {Time Delta W : Type 0} (E : Env Time Delta W) (L : TimeLaws E.time) where
  -- With `Infinite()` the oldest id is always retired.
  expire_infinite :
      (ids : List (ℕ × ConnectionIdData Time))
      → (maybe_expire_oldest E E.time.infinite ids).0 ≡ drop 1 ids
  unfolding maybe_expire_oldest
  expire_infinite [] = refl
  expire_infinite ((id, d) ∷ rest) = rw (L.gt_infinite d.time_added)

  trim_loop-eq-drop :
      (k fuel : ℕ) (ids : List (ℕ × ConnectionIdData Time))
      → E.max_connections ≡ pos (suc k)
      → length ids < fuel
      → trim_loop E fuel ids ≡ some (drop (length ids - k) ids)
  unfolding trim_loop
  trim_loop-eq-drop k zero ids e h = absurd (omega arith)
  trim_loop-eq-drop k (suc fuel) [] e h =
      let none_over : 0 - k ≡ 0 = omega arith in rw none_over (ground arith)
  trim_loop-eq-drop k (suc fuel) (x ∷ ids) e h = elim (dec_le k (length ids)) [
    | yes over ↦
        let n : suc (length ids) - k ≡ suc (length ids - k) = omega arith in
        rw n
          (ground (arith, expire_infinite (x ∷ ids), trim_loop-eq-drop k fuel ids e (omega arith)))
    | no fits ↦ let n : suc (length ids) - k ≡ 0 = omega arith in rw n (ground arith)
  ]

  -- With a maximum of k + 1 the loop ends, and the k newest ids stay, in their order.
  pub trim_time_wait_list_if_needed-eq-drop :
      (k : ℕ) (ids : List (ℕ × ConnectionIdData Time))
      → E.max_connections ≡ pos (suc k)
      → trim_time_wait_list_if_needed E ids ≡ some (drop (length ids - k) ids)
  unfolding trim_time_wait_list_if_needed
  trim_time_wait_list_if_needed-eq-drop k ids e =
      ground (arith, trim_loop-eq-drop k (suc (length ids)) ids e (omega arith))

  -- With a maximum of k + 1, adding an id keeps the k newest of the other ids, in their order, and
  -- puts the id at the end: with its version, the time, its close packet, and the packet count of
  -- its old record (0 if it had none). Nothing else changes.
  pub add_connection_id_to_time_wait-eq :
      (k : ℕ) (w : W) (id version : ℕ) (close : Option Packet) (m : TimeWait Time Delta)
      → E.max_connections ≡ pos (suc k)
      → add_connection_id_to_time_wait E w id version close m
        ≡ some (record m { connection_id_map = added_map E k w id version close m })
  unfolding add_connection_id_to_time_wait
  add_connection_id_to_time_wait-eq k w id version close m e =
      rw (trim_time_wait_list_if_needed-eq-drop k (erase id m.connection_id_map) e)

module _ {Time Delta W : Type 0} (E : Env Time Delta W) where
  trim_loop_diverges :
      (fuel : ℕ) (ids : List (ℕ × ConnectionIdData Time))
      → E.max_connections ≡ pos 0
      → trim_loop E fuel ids ≡ none
  unfolding trim_loop
  trim_loop_diverges zero ids e = refl
  trim_loop_diverges (suc fuel) ids e =
      ground (arith, trim_loop_diverges fuel (maybe_expire_oldest E E.time.infinite ids).0)

  -- With `FLAGS_quic_time_wait_list_max_connections` at 0 the loop that trims the list never ends,
  -- whatever the fuel, so no connection id can be added.
  pub add_connection_id_diverges :
      (w : W) (id version : ℕ) (close : Option Packet) (m : TimeWait Time Delta)
      → E.max_connections ≡ pos 0
      → ((fuel : ℕ) (ids : List (ℕ × ConnectionIdData Time)) → trim_loop E fuel ids ≡ none)
        × (add_connection_id_to_time_wait E w id version close m ≡ none)
  unfolding add_connection_id_to_time_wait trim_time_wait_list_if_needed
  add_connection_id_diverges w id version close m e =
      let others = erase id m.connection_id_map in
      (
        λ fuel ids. trim_loop_diverges fuel ids e,
        ground (arith, trim_loop_diverges (suc (length others)) others e),
      )
