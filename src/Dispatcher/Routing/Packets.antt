-- ===== src/Dispatcher/Routing/Packets.antt =====
-- quic_dispatcher.cc: a packet from the socket to the end of its handling.
use cmuquic.Prelude.{
  ℕ, ◌≡◌, refl, Bool, true, false, Option, none, some, inl, inr, Bool-cases, Runs, Runs->>=,
  if◌then◌else◌,
}
use cmuquic.Prelude.Assoc.{
  contains, lookup_of_contains, contains-assign, assign-IsDistinct, length-assign,
}
use cmuquic.Net.{Packet, IpEndPoint}
use cmuquic.Blocked.{Channel}
use cmuquic.Blocked.Laws.{IsUnique}
use cmuquic.TimeWait.Data.{ConnectionIdData, TimeWait, should_send_response, next_count}
use cmuquic.TimeWait.Wire.{respond, counted}
use cmuquic.TimeWait.Wire.Pending.{
  respond-IsQueued, respond-keeps, process_packet_due, process_packet_quiet, IsQueued,
}
use cmuquic.Library.{
  PublicHeader, FramerRun, finished, error, public_header, version_mismatch, unauthenticated_header,
}
use cmuquic.Dispatcher.Data.{Dispatcher, Host}
use cmuquic.Dispatcher.Invariant.{IsValid, Laws}
use cmuquic.Dispatcher.Routing.{
  on_unauthenticated_header, on_protocol_version_mismatch, run_framer, process_packet,
}
use cmuquic.Dispatcher.Routing.Safety.{Answered, Awaits, on_unauthenticated_public_header-Runs}

-- What the framer promises: it delivers the header of a packet once at most, for the id of the public
-- header, and only if the visitor asked to parse on (`some id`).
abbrev pub IsFramed : Option ℕ → FramerRun → Type 0
IsFramed o finished = Unit {0}
IsFramed o (error e next) = IsFramed o next
IsFramed o (public_header header next) =
    ((v : ℕ) → IsFramed none (next false v))
    × ((v : ℕ) → IsFramed (some header.connection_id) (next true v))
IsFramed o (version_mismatch v next) = IsFramed none (next false) × IsFramed o (next true)
IsFramed none (unauthenticated_header id sn next) = ⊥
IsFramed (some asked) (unauthenticated_header id sn next) =
    (asked ≡ id) × IsFramed none (next false)

-- The id that may be delivered after an answer to its public header.
abbrev asked_by : Bool → ℕ → Option ℕ
asked_by b id = if b then some id else none

IsFramed-answer :
    (o : Option ℕ) (header : PublicHeader) (next : Bool → ℕ → FramerRun) (b : Bool) (v : ℕ)
    → IsFramed o (public_header header next)
    → IsFramed (asked_by b header.connection_id) (next b v)
IsFramed-answer o header next true v f = f.1 v
IsFramed-answer o header next false v f = f.0 v

IsFramed-mismatch :
    (o : Option ℕ) (version : ℕ) (next : Bool → FramerRun) (b : Bool)
    → IsFramed o (version_mismatch version next)
    → IsFramed (if b then o else none) (next b)
IsFramed-mismatch o version next true f = f.1
IsFramed-mismatch o version next false f = f.0

module _ {Time Delta W : Type 0} (k : ℕ) (H : Host Time Delta W) (L : Laws k H) where
  answered-Valid :
      (d : Dispatcher Time Delta W) (id : ℕ) (data_of : ConnectionIdData Time)
      (tw : TimeWait Time Delta) (channel : Channel W)
      → IsValid k d
      → tw.connection_id_map ≡ (counted id data_of d.time_wait).connection_id_map
      → IsUnique channel.write_blocked_list
      → IsQueued tw channel
      → IsValid k (record d { time_wait = tw; channel = channel })
  answered-Valid d id data_of tw channel v e u q =
      let ids = d.time_wait.connection_id_map in
      let data_of' : ConnectionIdData Time = record data_of {
        num_packets = next_count data_of.num_packets;
      } in
      record {
        distinct = v.distinct;
        keyed = v.keyed;
        bounded = record {
          distinct = rw e (assign-IsDistinct id data_of' ids v.bounded.distinct);
          within = rw e (rw (length-assign id data_of' ids) v.bounded.within);
        };
        apart = λ p. rw e (rw (contains-assign id p data_of' ids) (v.apart p));
        unique = u;
        queued = q;
        supports = v.supports;
      }

  -- A packet whose id is in the time-wait list is answered or counted, and leaves a valid dispatcher.
  on_unauthenticated_header-Runs :
      (id sn : ℕ) (d : Dispatcher Time Delta W)
      → IsValid k d
      → contains id d.time_wait.connection_id_map ≡ true
      → Runs (IsValid k) (on_unauthenticated_header H id sn d)
  unfolding on_unauthenticated_header
  on_unauthenticated_header-Runs id sn d v h =
      let (data_of, found) = lookup_of_contains id d.time_wait.connection_id_map h in
      let server = d.current_server_address in
      let client = d.current_client_address in
      let m = counted id data_of d.time_wait in
      elim (Bool-cases (should_send_response (next_count data_of.num_packets))) [
        | inl due ↦
            let r = respond H.env server client id sn data_of.close_packet m d.channel in
            let kept =
              respond-keeps H.env server client id sn data_of.close_packet m d.channel v.unique in
            rw
              (process_packet_due H.env server client id sn d.time_wait d.channel data_of found due)
              (
                record d { time_wait = r.0; channel = r.1 },
                refl,
                answered-Valid d id data_of r.0 r.1 v kept.0 kept.1 (
                    respond-IsQueued H.env L.writer server client id sn data_of.close_packet m
                      d.channel v.queued),
              )
        | inr quiet ↦
            rw
              (process_packet_quiet H.env server client id sn d.time_wait d.channel data_of found
                quiet)
              (
                record d { time_wait = m },
                refl,
                answered-Valid d id data_of m d.channel v refl v.unique v.queued,
              )
      ]

  -- What is known of the id that the visitor asked to parse on.
  abbrev Asked : Option ℕ → Dispatcher Time Delta W → Type 0
  Asked none d = Unit {0}
  Asked (some id) d = contains id d.time_wait.connection_id_map ≡ true

  Asked-answer :
      (b : Bool) (id : ℕ) (d : Dispatcher Time Delta W) → Awaits b id d → Asked (asked_by b id) d
  Asked-answer true id d a = a
  Asked-answer false id d a = tt

  Asked-mismatch :
      (b : Bool) (o : Option ℕ) (d : Dispatcher Time Delta W)
      → Asked o d
      → Asked (if b then o else none) d
  Asked-mismatch true o d a = a
  Asked-mismatch false o d a = tt

  run_framer-Runs :
      (r : FramerRun) (o : Option ℕ) (d : Dispatcher Time Delta W)
      → IsFramed o r
      → IsValid k d
      → Asked o d
      → Runs (IsValid k) (run_framer H r d)
  unfolding run_framer
  run_framer-Runs finished o d f v a = (d, refl, v)
  run_framer-Runs (error e next) o d f v a = run_framer-Runs next o d f v a
  run_framer-Runs (public_header header next) o d f v a =
      Runs->>= (Answered k H L header.connection_id) (IsValid k) _ _
        (on_unauthenticated_public_header-Runs k H L header
          (record d { visitor_connection_id = header.connection_id }) v)
        (λ r p.
          run_framer-Runs (next r.0 r.1.framer_version) (asked_by r.0 header.connection_id) r.1
            (IsFramed-answer o header next r.0 r.1.framer_version f) p.0
            (Asked-answer r.0 header.connection_id r.1 p.1))
  run_framer-Runs (version_mismatch version next) o d f v a =
      let b = on_protocol_version_mismatch H d in
      run_framer-Runs (next b) (if b then o else none) d (IsFramed-mismatch o version next b f) v
        (Asked-mismatch b o d a)
  run_framer-Runs (unauthenticated_header id sn next) none d f v a = absurd f
  run_framer-Runs (unauthenticated_header id sn next) (some asked) d f v a =
      Runs->>= (IsValid k) (IsValid k) _ _ (on_unauthenticated_header-Runs id sn d v (rw (← f.0) a))
        (λ d' v'. run_framer-Runs (next false) none d' f.1 v' tt)

  -- If the framer delivers the header of a packet once at most, on demand and for the id of its public
  -- header, then the packet is handled to the end from a valid dispatcher, and leaves it valid: no check fails on a missing id, no loop runs on, and no id comes to have
  -- both a session and a place in the time-wait list.
  pub process_packet-IsValid :
      (server client : IpEndPoint) (packet : Packet) (d : Dispatcher Time Delta W)
      → IsFramed none (H.library.framer_run d.framer_version packet)
      → IsValid k d
      → Runs (IsValid k) (process_packet H server client packet d)
  unfolding process_packet
  process_packet-IsValid server client packet d f v =
      run_framer-Runs (H.library.framer_run d.framer_version packet) none _ f v tt
