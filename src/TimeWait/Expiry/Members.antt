-- ===== src/TimeWait/Expiry/Members.antt =====
-- `AddConnectionIdToTimeWait` of quic_time_wait_list_manager.cc: what the list holds afterwards.
use cmuquic.Prelude.{
  ℕ, zero, suc, ◌-◌, ◌≤◌, ◌≡◌, ◌≢◌, refl, ◌∙◌, false, Option, some, List, [], ◌∷◌, arith, length,
  drop, length-drop, length-append,
}
use cmuquic.Prelude.Assoc.{
  lookup, contains, erase, IsDistinct, erase-IsDistinct, contains-erase_self, contains-append,
  lookup-append_absent, snoc-IsDistinct, contains-erase_le,
}
use cmuquic.Prelude.Int.{pos}
use cmuquic.Net.{Packet, TimeLaws}
use cmuquic.TimeWait.Data.{Env, TimeWait}
use cmuquic.TimeWait.Expiry.{add_connection_id_to_time_wait}
use cmuquic.TimeWait.Expiry.Trim.{added_map, added_data, add_connection_id_to_time_wait-eq}

module _ {V : Type 0} where
  pub contains-drop_le :
      (n q : ℕ) (ids : List (ℕ × V)) → contains q ids ≡ false → contains q (drop n ids) ≡ false
  unfolding contains
  contains-drop_le zero q ids h = h
  contains-drop_le (suc n) q [] h = h
  contains-drop_le (suc n) q (x ∷ ids) h = contains-drop_le n q ids (ground arith)

  pub drop-IsDistinct : (n : ℕ) (ids : List (ℕ × V)) → IsDistinct ids → IsDistinct (drop n ids)
  drop-IsDistinct zero ids d = d
  drop-IsDistinct (suc n) [] d = tt
  drop-IsDistinct (suc n) (x ∷ ids) d = drop-IsDistinct n ids d.1

-- The ids in the list are distinct, and within the maximum of k + 1.
pub record IsBounded {Time Delta : Type 0} (k : ℕ) (m : TimeWait Time Delta) : Type 0 where
  pub distinct : IsDistinct m.connection_id_map
  pub within : length m.connection_id_map ≤ suc k

module _ {Time Delta W : Type 0} (E : Env Time Delta W) (k : ℕ) where
  module _ (w : W) (id version : ℕ) (close : Option Packet) (m : TimeWait Time Delta) where
    added_map-fresh :
        IsDistinct m.connection_id_map
        → let others = erase id m.connection_id_map in
          contains id (drop (length others - k) others) ≡ false
    added_map-fresh d =
        contains-drop_le (length (erase id m.connection_id_map) - k) id _
          (contains-erase_self id m.connection_id_map d)

    pub added_map-IsDistinct :
        IsDistinct m.connection_id_map → IsDistinct (added_map E k w id version close m)
    added_map-IsDistinct d =
        snoc-IsDistinct id _ _ (added_map-fresh d)
          (drop-IsDistinct _ _ (erase-IsDistinct id m.connection_id_map d))

    pub length-added_map : length (added_map E k w id version close m) ≤ suc k
    length-added_map =
        let others = erase id m.connection_id_map in
        omega (
          arith,
          length-append (drop (length others - k) others)
              ((id, added_data E w id version close m) ∷ []),
          length-drop (length others - k) others,
        )

    pub lookup-added_map :
        IsDistinct m.connection_id_map
        → lookup id (added_map E k w id version close m) ≡ some (added_data E w id version close m)
    unfolding lookup
    lookup-added_map d = lookup-append_absent id _ _ (added_map-fresh d) ∙ ground arith

    -- No id but the added one is new.
    pub contains-added_map :
        (q : ℕ)
        → contains q m.connection_id_map ≡ false
        → q ≢ id
        → contains q (added_map E k w id version close m) ≡ false
    unfolding contains
    contains-added_map q h ne =
        let others = erase id m.connection_id_map in
        ground (
          arith,
          contains-append q (drop (length others - k) others)
              ((id, added_data E w id version close m) ∷ []),
          contains-drop_le (length others - k) q others
              (contains-erase_le id q m.connection_id_map h),
        )

  -- With a maximum of k + 1, adding an id to distinct ids succeeds. It leaves distinct ids within the
  -- maximum, and the id is in the list with its new record; no packet in the queue is touched.
  pub add_connection_id-IsBounded :
      (L : TimeLaws E.time) (w : W) (id version : ℕ) (close : Option Packet)
      (m : TimeWait Time Delta)
      → E.max_connections ≡ pos (suc k)
      → IsDistinct m.connection_id_map
      → (m' : TimeWait Time Delta) × (add_connection_id_to_time_wait E w id version close m
          ≡ some m')
        × IsBounded k m'
        × (lookup id m'.connection_id_map ≡ some (added_data E w id version close m))
        × (m'.pending_packets_queue ≡ m.pending_packets_queue)
  add_connection_id-IsBounded L w id version close m e d = (
    record m { connection_id_map = added_map E k w id version close m },
    add_connection_id_to_time_wait-eq E L k w id version close m e,
    record {
      distinct = added_map-IsDistinct w id version close m d;
      within = length-added_map w id version close m;
    },
    lookup-added_map w id version close m d,
    refl,
  )
