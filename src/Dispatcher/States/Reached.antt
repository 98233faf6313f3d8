-- ===== src/Dispatcher/States/Reached.antt =====
-- quic_dispatcher.cc: every state that a dispatcher reaches is valid, and handles what comes.
use cmuquic.Prelude.{
  ℕ, zero, suc, ◌≤◌, ◌<◌, ◌≡◌, refl, Bool, true, false, none, some, List, [], ◌∷◌, inl, Runs,
  Runs->>=, length, is_empty, arith, either_branch, if◌then◌else◌,
}
use cmuquic.Prelude.Assoc.{contains, IsDistinct}
use cmuquic.Net.{Packet}
use cmuquic.TimeWait.Data.{Env, ConnectionIdData}
use cmuquic.TimeWait.Expiry.{
  init, maybe_expire_oldest, expire_loop, set_connection_id_clean_up_alarm,
  clean_up_old_connection_ids,
}
use cmuquic.Library.{Session}
use cmuquic.Dispatcher.Data.{Dispatcher, Host, world}
use cmuquic.Dispatcher.Invariant.{IsValid, Laws}
use cmuquic.Dispatcher.Closing.{delete_sessions, on_delete_sessions_alarm}
use cmuquic.Dispatcher.Closing.Blocking.{BlockingLaws, NeverUnblocks}
use cmuquic.Dispatcher.Closing.Callbacks.{react-Runs}
use cmuquic.Dispatcher.Closing.Sessions.{Closes}
use cmuquic.Dispatcher.Routing.Packets.{IsFramed, process_packet-IsValid}
use cmuquic.Dispatcher.Writing.Progress.{on_can_write-Runs}
use cmuquic.Dispatcher.Writing.Shutdown.{shutdown-Runs}
use cmuquic.Dispatcher.States.{
  Input, packet, writable, clean_up_alarm, library_calls, shut_down, passes, new_dispatcher,
  on_clean_up_alarm, happen, happen_all,
}
use cmuquic.Dispatcher.States

module _ {Time Delta W : Type 0} (E : Env Time Delta W) where
  -- What is left of ids that expire.
  pub record Rest (ids rest : List (ℕ × ConnectionIdData Time)) : Type 0 where
    pub distinct : IsDistinct ids → IsDistinct rest
    pub fewer : length rest ≤ length ids
    pub absent : (q : ℕ) → contains q ids ≡ false → contains q rest ≡ false

  expire_loop-Runs :
      (fuel : ℕ) (expiration : Time) (ids : List (ℕ × ConnectionIdData Time))
      → length ids < fuel
      → Runs (Rest ids) (expire_loop E fuel expiration ids)
  unfolding expire_loop maybe_expire_oldest contains
  expire_loop-Runs zero expiration ids h = absurd (omega (arith, h))
  expire_loop-Runs (suc fuel) expiration [] h =
      ([], refl, record { distinct = λ d. d; fewer = omega arith; absent = λ q a. a })
  expire_loop-Runs (suc fuel) expiration ((id, d) ∷ ids) h =
      either_branch
        (λ (p : List (ℕ × ConnectionIdData Time) × Bool).
          Runs (Rest ((id, d) ∷ ids)) (if p.1 then expire_loop E fuel expiration p.0 else some p.0))
        (E.time.time_gt d.time_added expiration) ((id, d) ∷ ids, false) (ids, true)
        (λ young. (_, refl, record { distinct = λ u. u; fewer = omega arith; absent = λ q a. a }))
        (λ old.
          let (rest, e, r) = expire_loop-Runs fuel expiration ids (omega (arith, h)) in
          (
            rest,
            e,
            record {
              distinct = λ u. r.distinct u.1;
              fewer = omega (arith, r.fewer);
              absent = λ q a. r.absent q (ground (arith, a));
            },
          ))

module _ {Time Delta W : Type 0} (k : ℕ) (H : Host Time Delta W) where
  on_clean_up_alarm-Runs :
      (d : Dispatcher Time Delta W) → IsValid k d → Runs (IsValid k) (on_clean_up_alarm H d)
  unfolding on_clean_up_alarm clean_up_old_connection_ids set_connection_id_clean_up_alarm
  on_clean_up_alarm-Runs d v =
      let m = d.time_wait in
      let expiration = H.env.time.subtract_delta (H.env.now (world d)) m.time_wait_period in
      let (ids, e, r) =
        expire_loop-Runs H.env (suc (length m.connection_id_map)) expiration m.connection_id_map
          (omega arith) in
      rw e (
        _,
        refl,
        record {
          distinct = v.distinct;
          keyed = v.keyed;
          bounded = record {
            distinct = r.distinct v.bounded.distinct;
            within = omega (arith, r.fewer, v.bounded.within);
          };
          apart = λ q. ground (arith, v.apart q, r.absent q);
          unique = v.unique;
          queued = v.queued;
          supports = v.supports;
        },
      )

  on_delete_sessions_alarm-IsValid :
      (d : Dispatcher Time Delta W) → IsValid k d → IsValid k (on_delete_sessions_alarm H d)
  unfolding on_delete_sessions_alarm delete_sessions
  on_delete_sessions_alarm-IsValid d v = v

  new_dispatcher-IsValid :
      (w : W) (period : Delta) (versions : List ℕ) (framer_version packet_num : ℕ)
      → is_empty versions ≡ false
      → IsValid k (new_dispatcher H w period versions framer_version packet_num)
  unfolding new_dispatcher init set_connection_id_clean_up_alarm contains
  new_dispatcher-IsValid w period versions framer_version packet_num some_version = record {
    distinct = tt;
    keyed = tt;
    bounded = record { distinct = tt; within = omega arith };
    apart = λ q. refl;
    unique = tt;
    queued = inl refl;
    supports = some_version;
  }

module _ {Time Delta W : Type 0} (k : ℕ) (H : Host Time Delta W) (L : Laws k H) (B : BlockingLaws H)
    (framed : (version : ℕ) (packet : Packet) → IsFramed none (H.library.framer_run version packet))
    (never : (w : W) (a : ℕ) → NeverUnblocks H w (H.library.connection_on_can_write w a))
    (closes : (w : W) (s : Session)
      → Closes s.connection_id
          (H.library.send_connection_close w s H.library.peer_going_away)) where
  happen-Runs :
      (i : Input W) (d : Dispatcher Time Delta W) → IsValid k d → Runs (IsValid k) (happen H i d)
  happen-Runs (packet server client p) d v =
      process_packet-IsValid k H L server client p d (framed d.framer_version p) v
  happen-Runs writable d v =
      let (d', e, rests) = on_can_write-Runs k H L B never d v in (d', e, rests.0)
  happen-Runs clean_up_alarm d v = on_clean_up_alarm-Runs k H d v
  happen-Runs States.delete_sessions_alarm d v = (_, refl, on_delete_sessions_alarm-IsValid k H d v)
  happen-Runs (library_calls r) d v = react-Runs k H L (r (world d)) d v
  happen-Runs shut_down d v =
      let (d', e, (v', emptied, deleted)) = shutdown-Runs k H L closes d v in (d', e, v')
  happen-Runs (passes f) d v = (_, refl, v)

  happen_all-Runs :
      (is : List (Input W)) (d : Dispatcher Time Delta W)
      → IsValid k d
      → Runs (IsValid k) (happen_all H is d)
  happen_all-Runs [] d v = (d, refl, v)
  happen_all-Runs (i ∷ is) d v =
      Runs->>= (IsValid k) (IsValid k) _ _ (happen-Runs i d v) (λ d' v'. happen_all-Runs is d' v')

  -- A dispatcher handles whatever happens to it from its constructor on, in any order and to the end:
  -- packets, a writable socket, its two alarms, calls of the library on its own account, and
  -- changes of the world outside, also after a shutdown. Every state that it reaches is valid. It has to
  -- support some version, the framer to deliver a header once at most, on demand and for the id of the public
  -- header; only `SetWritable` may unblock the packet writer in `OnCanWrite`; and the library has to call
  -- back when it is told to close a connection.
  pub happen_all-new_dispatcher :
      (is : List (Input W)) (w : W) (period : Delta) (versions : List ℕ)
      (framer_version packet_num : ℕ)
      → is_empty versions ≡ false
      → Runs
          (IsValid k)
          (happen_all H is (new_dispatcher H w period versions framer_version packet_num))
  happen_all-new_dispatcher is w period versions framer_version packet_num some_version =
      happen_all-Runs is (new_dispatcher H w period versions framer_version packet_num)
        (new_dispatcher-IsValid k H w period versions framer_version packet_num some_version)
